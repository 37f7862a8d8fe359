-- ===== src/Bot/Metrics/Server.antt =====
-- crates/bot/src/metrics.rs: the answer of the metrics server, and a client that reads it.
use sonic_edge.Base.{
  ℕ, zero, suc, ◌+◌, ◌-◌, ◌*◌, ◌/◌, ◌%◌, ◌^◌, ◌<◌, ◌≡◌, ◌∙◌, ap, sym, refl, true, false, is_some,
  Option, none, some, List, All, All-snoc, [], ◌∷◌, ◌++◌, arith, length, take, ltb, leb, ◌==◌, ◌&&◌,
  if◌then◌else◌, take_of_length-le, le→leb, ltb→lt, Bool-cases, inl, inr,
}
use native.Mathlib.Nat.{pow-suc}
use mathlib.Core.List.{append-nil, append_assoc}
use sonic_edge.Exec.{Result, ok, err, panic}
use sonic_edge.Core.Types.{Bytes}
use sonic_edge.Core.Config.{text}
use sonic_edge.Core.Metrics
use sonic_edge.Core.Metrics.{Prometheus}
use sonic_edge.Bot.Metrics.{BotMetrics}

-- The decimal digits of a number, with fuel for their count.
unfoldable pub digits : ℕ → ℕ → Bytes
digits zero n = []
digits (suc fuel) n =
    let front = digits fuel (n / 10) in
    if ltb n 10 then (48 + n) ∷ [] else front ++ (48 + n % 10) ∷ []

-- Twenty digits are enough for a `usize`.
abbrev format_usize : ℕ → Bytes
format_usize n = digits 20 n

unfoldable pub status_text : Bytes
status_text = text "HTTP/1.1 200 OK\r\nContent-Type: text/plain; version=0.0.4\r\nContent-Length: "

unfoldable pub end_text : Bytes
end_text = text "\r\n\r\n"

-- A text here is the list of the bytes of its UTF-8 form, which `len` counts; those of the fixed
-- parts and of the digits are their characters' numbers.
unfoldable pub response : Bytes → Bytes
response body = status_text ++ (format_usize (length body) ++ (end_text ++ body))

-- A connection, as far as it is written to: the answer of `write_all`. What is read from it, and
-- whether that fails, is passed over.
pub record Connection : Type 0 where
  pub write_all : Bytes → Result (Unit {0})

module _ (p : Prometheus) where
  unfoldable pub gather : BotMetrics p → Bytes
  gather m = Metrics.gather p m.metrics

  unfoldable pub handle_connection : Connection → BotMetrics p → Result (Unit {0})
  unfolding gather response
  handle_connection stream m = stream.write_all (response (gather m))

  -- The loop over what the listener accepts: the answers of the connections. A failed one, or a
  -- failed accept, is only logged.
  unfoldable pub serve : BotMetrics p → List (Result Connection) → List (Result (Unit {0}))
  serve m [] = []
  serve m (ok stream ∷ rest) = handle_connection stream m ∷ serve m rest
  serve m (err e ∷ rest) = serve m rest
  serve m (panic ∷ rest) = serve m rest

-- A client of HTTP/1.1: the head is lines that end with a carriage return and a line feed, up to an
-- empty one; the first is the status, and a field is found by its name, in letters of either case.
unfoldable pub read_head : Bytes → List Bytes → Bytes → Option (List Bytes × Bytes)
read_head line lines [] = none
read_head line lines (b ∷ []) = none
read_head line lines (b ∷ c ∷ rest) = elim (b == 13 && c == 10) [
  | true ↦ elim line [
    | [] ↦ some (lines, rest)
    | d ∷ ds ↦ read_head [] (lines ++ (d ∷ ds) ∷ []) rest
  ]
  | false ↦ read_head (line ++ b ∷ []) lines (c ∷ rest)
]

unfoldable lower : ℕ → ℕ
lower b = if leb 65 b && leb b 90 then b + 32 else b

-- What follows the prefix.
unfoldable pub after_prefix : Bytes → Bytes → Option Bytes
unfolding lower
after_prefix [] bytes = some bytes
after_prefix (p ∷ prefix) [] = none
after_prefix (p ∷ prefix) (b ∷ bytes) =
    if lower p == lower b then after_prefix prefix bytes else none

abbrev or_next : Option Bytes → Option Bytes → Option Bytes
or_next none other = other
or_next (some v) other = some v

-- The value of the first field of the name, which ends with a colon.
unfoldable pub field : Bytes → List Bytes → Option Bytes
field name [] = none
field name (line ∷ lines) = or_next (after_prefix name line) (field name lines)

abbrev without_space : Bytes → Bytes
without_space [] = []
without_space (b ∷ bytes) = if b == 32 then bytes else b ∷ bytes

unfoldable pub read_number : ℕ → Bytes → ℕ × Bytes
read_number acc [] = (acc, [])
read_number acc (c ∷ cs) =
    let rest = read_number (acc * 10 + (c - 48)) cs in
    if leb 48 c && leb c 57 then rest else (acc, c ∷ cs)

-- As many bytes as the length says, if they are there and nothing follows the number.
abbrev take_exactly : ℕ × Bytes → Bytes → Option Bytes
take_exactly (n, []) bytes = if leb n (length bytes) then some (take n bytes) else none
take_exactly (n, b ∷ bs) bytes = none

abbrev sized_body : Option Bytes → Bytes → Option Bytes
sized_body none bytes = none
sized_body (some value) bytes = take_exactly (read_number 0 (without_space value)) bytes

-- A successful answer, whose body has the length that the head says.
abbrev body_of : Option (List Bytes × Bytes) → Option Bytes
body_of none = none
body_of (some ([], bytes)) = none
body_of (some (status ∷ fields, bytes)) =
    elim (is_some (after_prefix (text "HTTP/1.1 200 ") status)) [
      | true ↦ sized_body (field (text "Content-Length:") fields) bytes
      | false ↦ none
    ]

unfoldable pub read_response : Bytes → Option Bytes
read_response bytes = body_of (read_head [] [] bytes)

read_digit :
    (acc d : ℕ) (rest : Bytes)
    → d < 10
    → read_number acc ((48 + d) ∷ rest) ≡ read_number (acc * 10 + d) rest
unfolding read_number
read_digit acc d rest small =
    rw (le→leb 48 (48 + d) (omega arith), le→leb (48 + d) 57 (omega arith))
      (ap (λ n. read_number n rest) (omega arith))

-- Reading goes on with the number that the digits spell.
read_number-digits :
    (fuel n : ℕ) (rest : Bytes)
    → n < 10 ^ fuel
    → read_number 0 (digits fuel n ++ rest) ≡ read_number n rest
unfolding digits
read_number-digits zero n rest small = ap (λ k. read_number k rest) (omega arith)
read_number-digits (suc fuel) n rest small = elim (Bool-cases (ltb n 10)) [
  | inl one ↦
      rw one (read_digit 0 n rest (ltb→lt n 10 one) ∙ ap (λ k. read_number k rest) (omega arith))
  | inr more ↦ rw more (
      ap (read_number 0) (append_assoc (digits fuel (n / 10)) ((48 + n % 10) ∷ []) rest)
      ∙ read_number-digits fuel (n / 10) ((48 + n % 10) ∷ rest)
          (omega (arith, small, pow-suc 10 fuel))
      ∙ read_digit (n / 10) (n % 10) rest (omega arith)
      ∙ ap (λ k. read_number k rest) (omega arith))
]

-- A byte of a line that is no carriage return.
abbrev Plain : ℕ → Type 0
Plain b = (b == 13) ≡ false

digits-Plain : (fuel n : ℕ) → All Plain (digits fuel n)
unfolding digits
digits-Plain zero n = tt
digits-Plain (suc fuel) n = elim (Bool-cases (ltb n 10)) [
  | inl one ↦ rw one (ground arith, tt)
  | inr more ↦ rw more (
      All-snoc Plain (digits fuel (n / 10)) (48 + n % 10) (digits-Plain fuel (n / 10))
        (ground arith))
]

-- Plain bytes become part of the line.
read_head-Plain :
    (line : Bytes) (lines : List Bytes) (bytes : Bytes) (b : ℕ) (rest : Bytes)
    → All Plain bytes
    → read_head line lines (bytes ++ b ∷ rest) ≡ read_head (line ++ bytes) lines (b ∷ rest)
unfolding read_head
read_head-Plain line lines [] b rest h =
    ap (λ l. read_head l lines (b ∷ rest)) (sym (append-nil line))
read_head-Plain line lines (x ∷ []) b rest h = rw (h.0, read_head) refl
read_head-Plain line lines (x ∷ y ∷ bytes) b rest h =
    rw (h.0, read_head)
      (read_head-Plain (line ++ x ∷ []) lines (y ∷ bytes) b rest h.1
        ∙ ap (λ l. read_head l lines (b ∷ rest)) (append_assoc line (x ∷ []) (y ∷ bytes)))

-- A client of HTTP/1.1 that reads the status, the fields up to the empty line and then as many
-- bytes as the field `Content-Length` says takes the answer for a successful one and gets exactly
-- the metrics, for any text of metrics of less than 2^64 bytes.
pub read_response-response :
    (body : Bytes) → length body < 2 ^ 64 → read_response (response body) ≡ some body
unfolding read_response response read_head status_text end_text field after_prefix read_number
read_response-response body small =
    let n = length body in
    let number : read_number 0 (digits 20 n) ≡ (n, []) =
      ap (read_number 0) (sym (append-nil (digits 20 n)))
      ∙ read_number-digits 20 n [] (omega arith) in
    ap body_of (
      read_head-Plain (text "Content-Length:")
        (text "HTTP/1.1 200 OK" ∷ text "Content-Type: text/plain; version=0.0.4" ∷ [])
        (32 ∷ digits 20 n) 13 (10 ∷ 13 ∷ 10 ∷ body) (refl, digits-Plain 20 n))
    ∙ ap (λ o. take_exactly o body) number
    ∙ rw (le→leb n n (omega arith)) (ap some (take_of_length-le n body (omega arith)))
