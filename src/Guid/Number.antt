-- ===== src/Guid/Number.antt =====
-- The number that a GUID is converted to has the GUID's fields as its big-endian bytes.
use kee_pass_key_win.Prelude.{
  ℕ, zero, suc, ◌+◌, ◌-◌, ◌*◌, ◌/◌, ◌%◌, ◌^◌, ◌<◌, ◌≤◌, List, [], ◌∷◌, ◌≡◌, ◌∙◌, refl, ap, ap₂,
  arith, length, subst, bit_or-disjoint, quotient,
}
use Prim.Native.Nat.{bit_or}
use native.Mathlib.Nat.{mul-le-mul_right, one-le-pow}
use kee_pass_key_win.World.{Guid}
use kee_pass_key_win.Guid.{or_bytes, to_u128}
use kee_pass_key_win.Guid.Texts.{AllBytes, IsGuid}

-- The last `n` bytes of a number, the highest first: `to_be_bytes` of an integer of that size.
abbrev pub be_bytes : ℕ → ℕ → List ℕ
be_bytes zero a = []
be_bytes (suc n) a = a / 2 ^ (8 * n) % 256 ∷ be_bytes n a

-- The number that a list of bytes stands for.
abbrev be_value : List ℕ → ℕ
be_value [] = 0
be_value (b ∷ bs) = b * 2 ^ (8 * length bs) + be_value bs

power-byte : (n : ℕ) → 2 ^ (8 * suc n) ≡ 256 * 2 ^ (8 * n)
power-byte n =
    let exponent : 8 * suc n ≡ suc (suc (suc (suc (suc (suc (suc (suc (8 * n)))))))) =
      omega arith in
    ap (λ e. 2 ^ e) exponent ∙ omega arith

-- A byte in front of a number that `c` bounds.
byte-lt : (b v c : ℕ) → b < 256 → v < c → b * c + v < 256 * c
byte-lt b v c h k =
    let most : suc b * c ≤ 256 * c = mul-le-mul_right c (omega (arith, h)) in omega (arith, most, k)

be_value-lt : (bs : List ℕ) → AllBytes bs → be_value bs < 2 ^ (8 * length bs)
be_value-lt [] h = omega arith
be_value-lt (b ∷ bs) h =
    let most = byte-lt b (be_value bs) (2 ^ (8 * length bs)) h.0 (be_value-lt bs h.1) in
    omega (arith, most, power-byte (length bs))

-- The bytes of a number are read back, whatever stands before them.
be_bytes-be_value :
    (q : ℕ) (bs : List ℕ)
    → AllBytes bs
    → be_bytes (length bs) (q * 2 ^ (8 * length bs) + be_value bs) ≡ bs
be_bytes-be_value q [] h = refl
be_bytes-be_value q (b ∷ bs) h =
    let unit = 2 ^ (8 * length bs) in
    let front : q * (256 * unit) ≡ (q * 256) * unit = omega arith in
    let moved : q * 2 ^ (8 * suc (length bs)) ≡ q * (256 * unit) =
      ap (λ (p : ℕ). q * p) (power-byte (length bs)) in
    let all : q * 2 ^ (8 * suc (length bs)) + (b * unit + be_value bs)
        ≡ (q * 256 + b) * unit + be_value bs =
      omega (arith, front, moved) in
    let first = quotient (q * 256 + b) (be_value bs) unit (be_value-lt bs h.1) in
    let rest = be_bytes-be_value (q * 256 + b) bs h.1 in
    rw all (ap₂ (λ d (ds : List ℕ). d ∷ ds) (omega (arith, first, h.0)) rest)

-- The bytes are joined by `|`, so their digits must not overlap.
or_bytes-be_value :
    (q b : ℕ) (bs : List ℕ)
    → AllBytes (b ∷ bs)
    → or_bytes (q * 2 ^ (8 * suc (length bs))) (b ∷ bs) (8 * length bs)
      ≡ q * 2 ^ (8 * suc (length bs)) + be_value (b ∷ bs)
unfolding or_bytes
or_bytes-be_value q b [] h = omega (arith, bit_or-disjoint 8 q (b * 1) (omega (arith, h.0)))
or_bytes-be_value q b (c ∷ bs) h =
    let unit = 2 ^ (8 * suc (length bs)) in
    let power : 2 ^ (8 * suc (suc (length bs))) ≡ 256 * unit = power-byte (suc (length bs)) in
    let positive : 0 < unit = one-le-pow (8 * suc (length bs)) 2 (omega arith) in
    let fits : b * unit < 2 ^ (8 * suc (suc (length bs))) =
      omega (arith, power, byte-lt b 0 unit h.0 positive) in
    let front : q * (256 * unit) ≡ (q * 256) * unit = omega arith in
    let moved : q * 2 ^ (8 * suc (suc (length bs))) ≡ q * (256 * unit) =
      ap (λ (p : ℕ). q * p) power in
    let joined : bit_or (q * 2 ^ (8 * suc (suc (length bs)))) (b * unit) ≡ (q * 256 + b) * unit =
      bit_or-disjoint (8 * suc (suc (length bs))) q (b * unit) fits ∙ omega (arith, front, moved) in
    let shift : 8 * suc (length bs) - 8 ≡ 8 * length bs = omega arith in
    ap₂ (λ a k. or_bytes a (c ∷ bs) k) joined shift
    ∙ or_bytes-be_value (q * 256 + b) c bs h.1
    ∙ omega (arith, front, moved)

-- The eight bytes of a GUID.
last_bytes :
    (q : ℕ) (bs : List ℕ)
    → length bs ≡ 8
    → AllBytes bs
    → or_bytes (q * 2 ^ 64) bs 56 ≡ q * 2 ^ 64 + be_value bs
last_bytes q [] n h = ground (arith, n)
last_bytes q (b ∷ bs) n h =
    let seven : length bs ≡ 7 = omega (arith, n) in
    subst
      (λ k.
        or_bytes (q * 2 ^ (8 * suc k)) (b ∷ bs) (8 * k) ≡ q * 2 ^ (8 * suc k) + be_value (b ∷ bs))
      seven (or_bytes-be_value q b bs h)

to_u128-value :
    (g : Guid)
    → IsGuid g
    → to_u128 g ≡ ((g.data1 * 2 ^ 16 + g.data2) * 2 ^ 16 + g.data3) * 2 ^ 64 + be_value g.data4
unfolding to_u128
to_u128-value g h =
    let two = g.data1 * 2 ^ 16 + g.data2 in
    let three = two * 2 ^ 16 + g.data3 in
    let first = bit_or-disjoint 96 g.data1 (g.data2 * 2 ^ 80) (omega (arith, h.data2)) in
    let joined : bit_or (g.data1 * 2 ^ 96) (g.data2 * 2 ^ 80) ≡ two * 2 ^ 80 =
      first ∙ omega arith in
    let second = bit_or-disjoint 80 two (g.data3 * 2 ^ 64) (omega (arith, h.data3)) in
    let fields : bit_or (two * 2 ^ 80) (g.data3 * 2 ^ 64) ≡ three * 2 ^ 64 = second ∙ omega arith in
    rw (joined, fields) (last_bytes three g.data4 h.length h.bytes)

-- The number keeps every field: its upper 32 bits, the two groups of 16 and the last eight bytes are
-- those of the GUID, and nothing stands above them. The fields are in range, and there are eight bytes
-- after the first three fields.
pub to_u128-fields :
    (g : Guid)
    → IsGuid g
    → (to_u128 g < 2 ^ 128)
      × (to_u128 g / 2 ^ 96 ≡ g.data1)
      × (to_u128 g / 2 ^ 80 % 2 ^ 16 ≡ g.data2)
      × (to_u128 g / 2 ^ 64 % 2 ^ 16 ≡ g.data3)
      × (be_bytes 8 (to_u128 g) ≡ g.data4)
to_u128-fields g h =
    let three = (g.data1 * 2 ^ 16 + g.data2) * 2 ^ 16 + g.data3 in
    let value = to_u128-value g h in
    let small : be_value g.data4 < 2 ^ 64 =
      subst (λ k. be_value g.data4 < 2 ^ (8 * k)) h.length (be_value-lt g.data4 h.bytes) in
    let bytes : be_bytes 8 (three * 2 ^ 64 + be_value g.data4) ≡ g.data4 =
      subst (λ k. be_bytes k (three * 2 ^ (8 * k) + be_value g.data4) ≡ g.data4) h.length
        (be_bytes-be_value three g.data4 h.bytes) in
    (
      omega (arith, value, small, h.data1, h.data2, h.data3),
      omega (arith, value, small, h.data2, h.data3),
      omega (arith, value, small, h.data2, h.data3),
      omega (arith, value, small, h.data3),
      rw value bytes,
    )
