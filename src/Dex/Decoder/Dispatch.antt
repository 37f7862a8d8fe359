-- ===== src/Dex/Decoder/Dispatch.antt =====
-- Which calldata is decoded, and to what.
use sonic_edge.Base.{
  ◌<◌, ◌≡◌, ◌≢◌, ◌↔◌, ◌⊎◌, inl, inr, ap, subst, true, false, none, some, arith, ltb, lt→ltb, length,
  length-take, take, bytes_eq, bytes_eq_refl, bytes_eq→eq, Bool-cases,
}
use sonic_edge.Exec.{ok}
use sonic_edge.Core.Types.{Bytes}
use sonic_edge.Dex.Decoder.{
  AddLiquidityCall, AddLiquidityEthCall, SolidlyAddLiquidityCall, RouterAbi, RouterCall, v2_of_call,
  v2_eth_of_call, solidly_of_call, decode_router_calldata,
}

-- What the contract ABI promises: `abi_encode` puts the four bytes of the selector in front, the
-- three selectors differ, and `abi_decode` reads back what `abi_encode` wrote.
pub record AbiCodec (abi : RouterAbi) : Type 0 where
  pub encode_add_liquidity : AddLiquidityCall → Bytes
  pub encode_add_liquidity_eth : AddLiquidityEthCall → Bytes
  pub encode_solidly_add_liquidity : SolidlyAddLiquidityCall → Bytes
  pub selector_length :
      (length abi.add_liquidity_selector ≡ 4)
      × (length abi.add_liquidity_eth_selector ≡ 4)
      × (length abi.solidly_add_liquidity_selector ≡ 4)
  pub selectors_differ :
      (abi.add_liquidity_eth_selector ≢ abi.add_liquidity_selector)
      × (abi.solidly_add_liquidity_selector ≢ abi.add_liquidity_selector)
      × (abi.solidly_add_liquidity_selector ≢ abi.add_liquidity_eth_selector)
  pub begins_add_liquidity :
      (c : AddLiquidityCall) → take 4 (encode_add_liquidity c) ≡ abi.add_liquidity_selector
  pub begins_add_liquidity_eth :
      (c : AddLiquidityEthCall)
      → take 4 (encode_add_liquidity_eth c) ≡ abi.add_liquidity_eth_selector
  pub begins_solidly_add_liquidity :
      (c : SolidlyAddLiquidityCall)
      → take 4 (encode_solidly_add_liquidity c) ≡ abi.solidly_add_liquidity_selector
  pub decode-encode_add_liquidity :
      (c : AddLiquidityCall) → abi.decode_add_liquidity (encode_add_liquidity c) ≡ ok c
  pub decode-encode_add_liquidity_eth :
      (c : AddLiquidityEthCall) → abi.decode_add_liquidity_eth (encode_add_liquidity_eth c) ≡ ok c
  pub decode-encode_solidly_add_liquidity :
      (c : SolidlyAddLiquidityCall)
      → abi.decode_solidly_add_liquidity (encode_solidly_add_liquidity c) ≡ ok c

bytes_eq-false : (xs ys : Bytes) → xs ≢ ys → bytes_eq xs ys ≡ false
bytes_eq-false xs ys d = elim (Bool-cases (bytes_eq xs ys)) [
  | inl same ↦ absurd (d (bytes_eq→eq xs ys same))
  | inr other ↦ other
]

eq→bytes_eq : (xs ys : Bytes) → xs ≡ ys → bytes_eq xs ys ≡ true
eq→bytes_eq xs ys e = subst (λ zs. bytes_eq xs zs ≡ true) e (bytes_eq_refl xs)

-- Calldata that begins with a selector is long enough.
long_enough :
    (input selector : Bytes)
    → take 4 input ≡ selector
    → length selector ≡ 4
    → ltb (length input) 4 ≡ false
long_enough input selector e four = ground (arith, length-take 4 input, ap length e)

module _ (abi : RouterAbi) where
  -- Where the selectors differ and the ABI reads back what it encodes, decoding reads back every
  -- encoded call of the three kinds, as the structure that the bot keeps of it.
  pub decode_router_calldata-encode :
      (codec : AbiCodec abi)
      → ((c : AddLiquidityCall)
          → decode_router_calldata abi (codec.encode_add_liquidity c)
            ≡ ok (some (RouterCall.add_liquidity (v2_of_call c))))
        × ((c : AddLiquidityEthCall)
            → decode_router_calldata abi (codec.encode_add_liquidity_eth c)
              ≡ ok (some (RouterCall.add_liquidity_eth (v2_eth_of_call c))))
        × ((c : SolidlyAddLiquidityCall)
            → decode_router_calldata abi (codec.encode_solidly_add_liquidity c)
              ≡ ok (some (RouterCall.add_liquidity_solidly (solidly_of_call c))))
  unfolding decode_router_calldata
  decode_router_calldata-encode codec = (
    λ c. rw (long_enough _ _ (codec.begins_add_liquidity c) codec.selector_length.0) (
        rw (codec.begins_add_liquidity c, bytes_eq_refl abi.add_liquidity_selector)
          (rw (codec.decode-encode_add_liquidity c))),
    λ c. rw (long_enough _ _ (codec.begins_add_liquidity_eth c) codec.selector_length.1) (
        rw
          (
            codec.begins_add_liquidity_eth c,
            bytes_eq-false _ _ codec.selectors_differ.0,
            bytes_eq_refl abi.add_liquidity_eth_selector,
          )
          (rw (codec.decode-encode_add_liquidity_eth c))),
    λ c. rw (long_enough _ _ (codec.begins_solidly_add_liquidity c) codec.selector_length.2) (
        rw
          (
            codec.begins_solidly_add_liquidity c,
            bytes_eq-false _ _ codec.selectors_differ.1,
            bytes_eq-false _ _ codec.selectors_differ.2,
            bytes_eq_refl abi.solidly_add_liquidity_selector,
          )
          (rw (codec.decode-encode_solidly_add_liquidity c))),
  )

  -- Calldata is passed over exactly when it is shorter than a selector or begins with none of the
  -- three.
  pub decode_router_calldata-none_iff :
      (input : Bytes)
      → (decode_router_calldata abi input ≡ ok none) ↔ (
          (length input < 4)
          ⊎ ((take 4 input ≢ abi.add_liquidity_selector)
              × (take 4 input ≢ abi.add_liquidity_eth_selector)
              × (take 4 input ≢ abi.solidly_add_liquidity_selector)))
  unfolding decode_router_calldata
  decode_router_calldata-none_iff input = (
    λ h. elim (Bool-cases (ltb (length input) 4)) [
      | inl short ↦ inl (ground arith)
      | inr long ↦ inr (
        λ e. ground (arith, eq→bytes_eq _ _ e),
        λ e. ground (arith, eq→bytes_eq _ _ e),
        λ e. ground (arith, eq→bytes_eq _ _ e),
      )
    ],
    elim [
      | inl short ↦ rw (lt→ltb _ _ short)
      | inr (p, q, r) ↦
          rw (bytes_eq-false _ _ p, bytes_eq-false _ _ q, bytes_eq-false _ _ r) (ground arith)
    ],
  )
