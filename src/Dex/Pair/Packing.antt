-- ===== src/Dex/Pair/Packing.antt =====
-- The salts of the CREATE2 derivation: what the packed bytes determine.
use sonic_edge.Base.{
  ℕ, zero, suc, ◌+◌, ◌*◌, ◌/◌, ◌^◌, ◌<◌, ◌≡◌, ◌≢◌, ◌↔◌, ◌⊎◌, ◌∙◌, sym, refl, ap, Bool, [], ◌∷◌,
  ◌++◌, arith, length, length-append, append-parts, if◌then◌else◌,
}
use mathlib.Core.List.{foldl, foldl-append}
use mathlib.Core.Path.{ap₂}
use native.Mathlib.Nat.{pow-suc}
use sonic_edge.Core.Types.{Address, B256, Bytes}
use sonic_edge.Dex.Pair.{
  Hashing, sort_tokens, be_bytes, packed_v2, packed_solidly, derive_pair_address_v2,
  derive_pair_address_solidly,
}

-- The number that big-endian bytes spell.
of_be_bytes : Bytes → ℕ
of_be_bytes = foldl (λ x b. x * 256 + b) 0

of_be_bytes-be_bytes : (n x : ℕ) → x < 256 ^ n → of_be_bytes (be_bytes n x) ≡ x
unfolding of_be_bytes be_bytes
of_be_bytes-be_bytes zero x h = omega arith
of_be_bytes-be_bytes (suc n) x h =
    foldl-append _ 0 (be_bytes n (x / 256)) _
    ∙ rw (of_be_bytes-be_bytes n (x / 256) (omega (arith, pow-suc 256 n))) (omega arith)

length-be_bytes : (n x : ℕ) → length (be_bytes n x) ≡ n
unfolding be_bytes
length-be_bytes zero x = refl
length-be_bytes (suc n) x =
    length-append (be_bytes n (x / 256)) _ ∙ omega (arith, length-be_bytes n (x / 256))

pub sort_tokens_comm : (a b : Address) → sort_tokens a b ≡ sort_tokens b a
unfolding sort_tokens
sort_tokens_comm a b = ground arith

-- The tokens in either order.
abbrev pub SamePair : Address → Address → Address → Address → Type 0
SamePair a b c d = ((a ≡ c) × (b ≡ d)) ⊎ ((a ≡ d) × (b ≡ c))

pub sort_tokens_iff : (a b c d : Address) → (sort_tokens a b ≡ sort_tokens c d) ↔ SamePair a b c d
unfolding sort_tokens
sort_tokens_iff a b c d = (λ h. ground arith, λ h. ground arith)

abbrev IsAddress : Address → Type 0
IsAddress a = a < 2 ^ 160

be_bytes-injective :
    (x y : Address) → IsAddress x → IsAddress y → be_bytes 20 x ≡ be_bytes 20 y → x ≡ y
be_bytes-injective x y hx hy e =
    sym (of_be_bytes-be_bytes 20 x hx) ∙ ap of_be_bytes e ∙ of_be_bytes-be_bytes 20 y hy

sort_tokens-IsAddress :
    (a b : Address)
    → IsAddress a
    → IsAddress b
    → IsAddress (sort_tokens a b).0 × IsAddress (sort_tokens a b).1
unfolding sort_tokens
sort_tokens-IsAddress a b ha hb = ground arith

same_length : (x y : Address) → length (be_bytes 20 x) ≡ length (be_bytes 20 y)
same_length x y = length-be_bytes 20 x ∙ sym (length-be_bytes 20 y)

module _ (a b c d : Address) (ha : IsAddress a) (hb : IsAddress b) (hc : IsAddress c)
    (hd : IsAddress d) where
  sort_tokens_of_parts :
      be_bytes 20 (sort_tokens a b).0 ≡ be_bytes 20 (sort_tokens c d).0
      → be_bytes 20 (sort_tokens a b).1 ≡ be_bytes 20 (sort_tokens c d).1
      → sort_tokens a b ≡ sort_tokens c d
  sort_tokens_of_parts p q =
      let l = sort_tokens-IsAddress a b ha hb in
      let r = sort_tokens-IsAddress c d hc hd in
      let e0 = be_bytes-injective _ _ l.0 r.0 p in
      let e1 = be_bytes-injective _ _ l.1 r.1 q in ground arith

  -- For addresses of 20 bytes, the 40 packed bytes are equal exactly for the same two tokens, in
  -- either order.
  pub packed_v2_iff : (packed_v2 a b ≡ packed_v2 c d) ↔ SamePair a b c d
  unfolding packed_v2
  packed_v2_iff = (
    λ e.
        let parts = append-parts _ _ (same_length (sort_tokens a b).0 (sort_tokens c d).0) e in
        (sort_tokens_iff a b c d).0 (sort_tokens_of_parts parts.0 parts.1),
    λ h.
        ap (λ (t : Address × Address). be_bytes 20 t.0 ++ be_bytes 20 t.1)
          ((sort_tokens_iff a b c d).1 h),
  )

  -- For addresses of 20 bytes, the 41 packed bytes are equal exactly for the same two tokens, in
  -- either order, and the same kind of pool.
  pub packed_solidly_iff :
      (s t : Bool) → (packed_solidly a b s ≡ packed_solidly c d t) ↔ (SamePair a b c d × (s ≡ t))
  unfolding packed_solidly
  packed_solidly_iff s t = (
    λ e.
        let front = append-parts _ _ (same_length (sort_tokens a b).0 (sort_tokens c d).0) e in
        let back = append-parts _ _ (same_length (sort_tokens a b).1 (sort_tokens c d).1) front.1 in
        ((sort_tokens_iff a b c d).0 (sort_tokens_of_parts front.0 back.0), flags s t back.1),
    λ h.
        ap₂
          (λ (p : Address × Address) (f : Bool).
            be_bytes 20 p.0 ++ (be_bytes 20 p.1 ++ (if f then 1 else 0) ∷ []))
          ((sort_tokens_iff a b c d).1 h.0) h.1,
  )
    where
      flags :
          (s t : Bool)
          → ◌≡◌ {A = Bytes} ((if s then 1 else 0) ∷ []) ((if t then 1 else 0) ∷ [])
          → s ≡ t
      flags s t e = ground arith

-- A V2 salt and a Solidly salt are never made of the same bytes: one has 40, the other 41.
pub packed_v2-ne-packed_solidly :
    (a b c d : Address) (s : Bool) → packed_v2 a b ≢ packed_solidly c d s
unfolding packed_v2 packed_solidly
packed_v2-ne-packed_solidly a b c d s e = omega (
  arith,
  ap length e,
  length-append (be_bytes 20 (sort_tokens a b).0) (be_bytes 20 (sort_tokens a b).1),
  length-append (be_bytes 20 (sort_tokens c d).0)
      (be_bytes 20 (sort_tokens c d).1 ++ (if s then 1 else 0) ∷ []),
  length-append (be_bytes 20 (sort_tokens c d).1) ((if s then 1 else 0) ∷ []),
  length-be_bytes 20 (sort_tokens a b).0,
  length-be_bytes 20 (sort_tokens a b).1,
  length-be_bytes 20 (sort_tokens c d).0,
  length-be_bytes 20 (sort_tokens c d).1,
)

-- The derived address, of a V2 and of a Solidly factory, does not depend on the order in which the
-- tokens are named.
pub derive_pair_address_comm :
    (hashing : Hashing) (factory a b : Address) (stable : Bool) (hash : B256)
    → (derive_pair_address_v2 hashing factory a b hash
        ≡ derive_pair_address_v2 hashing factory b a hash)
      × (derive_pair_address_solidly hashing factory a b stable hash
          ≡ derive_pair_address_solidly hashing factory b a stable hash)
unfolding derive_pair_address_v2 derive_pair_address_solidly packed_v2 packed_solidly
derive_pair_address_comm hashing factory a b stable hash = (
  rw (sort_tokens_comm a b, derive_pair_address_v2),
  rw (sort_tokens_comm a b, derive_pair_address_solidly),
)
