-- ===== src/Guid/Texts.antt =====
-- Different GUIDs have different texts, and so have different transactions.
use kee_pass_key_win.Prelude.{
  ℕ, ◌≤◌, ◌<◌, ◌^◌, List, [], ◌∷◌, ◌++◌, Text, codes, ◌≡◌, ◌∙◌, refl, ap₂, sym, arith, length,
}
use kee_pass_key_win.World.{Guid}
use kee_pass_key_win.Hex.{hex_pad}
use kee_pass_key_win.Hex.Reading.{hex_pad-injective, length-hex_pad}
use kee_pass_key_win.Guid.{data4_text, guid_text, hex_bytes, transaction_text}

abbrev pub AllBytes : List ℕ → Type 0
AllBytes [] = Unit
AllBytes (b ∷ bs) = (b < 256) × AllBytes bs

-- The sizes of the fields in the source: `u32`, `u16`, `u16` and eight bytes.
pub record IsGuid (g : Guid) : Type 0 where
  pub data1 : g.data1 < 2 ^ 32
  pub data2 : g.data2 < 2 ^ 16
  pub data3 : g.data3 < 2 ^ 16
  pub length : length g.data4 ≡ 8
  pub bytes : AllBytes g.data4

-- Joined texts whose first parts have the same length.
append-injective : (s t u v : Text) → length s ≡ length u → s ++ t ≡ u ++ v → (s ≡ u) × (t ≡ v)
append-injective [] t [] v h e = (refl, e)
append-injective [] t (c ∷ u) v h e = ground arith
append-injective (c ∷ s) t [] v h e = ground arith
append-injective (c ∷ s) t (d ∷ u) v h e = ground (arith, append-injective s t u v)

module _ (a : ℕ) (letters : 58 ≤ a) where
  -- A field at the front.
  field-injective :
      (k n m : ℕ) (t v : Text)
      → n < 16 ^ k
      → m < 16 ^ k
      → hex_pad a k n ++ t ≡ hex_pad a k m ++ v
      → (n ≡ m) × (t ≡ v)
  field-injective k n m t v b c e =
      let (same, rest) =
        append-injective (hex_pad a k n) t (hex_pad a k m) v
          (length-hex_pad a k n ∙ sym (length-hex_pad a k m)) e in
      (hex_pad-injective a k n m letters b c same, rest)

  hex_bytes-injective :
      (bs cs : List ℕ)
      → length bs ≡ length cs
      → AllBytes bs
      → AllBytes cs
      → hex_bytes a bs ≡ hex_bytes a cs
      → bs ≡ cs
  unfolding hex_bytes
  hex_bytes-injective [] [] n h k e = refl
  hex_bytes-injective [] (c ∷ cs) n h k e = ground arith
  hex_bytes-injective (b ∷ bs) [] n h k e = ground arith
  hex_bytes-injective (b ∷ bs) (c ∷ cs) n h k e =
      let (same, rest) = field-injective 2 b c _ _ h.0 k.0 e in
      ap₂ (λ d (ds : List ℕ). d ∷ ds) same
        (hex_bytes-injective bs cs (omega (arith, n)) h.1 k.1 rest)

  data4_text-injective :
      (bs cs : List ℕ)
      → length bs ≡ 8
      → length cs ≡ 8
      → AllBytes bs
      → AllBytes cs
      → data4_text a bs ≡ data4_text a cs
      → bs ≡ cs
  unfolding data4_text
  data4_text-injective [] cs n m h k e = ground (arith, n)
  data4_text-injective (b0 ∷ []) cs n m h k e = ground (arith, n)
  data4_text-injective (b0 ∷ b1 ∷ bs) [] n m h k e = ground (arith, m)
  data4_text-injective (b0 ∷ b1 ∷ bs) (c0 ∷ []) n m h k e = ground (arith, m)
  data4_text-injective (b0 ∷ b1 ∷ bs) (c0 ∷ c1 ∷ cs) n m h k e =
      let (same0, rest0) = field-injective 2 b0 c0 _ _ h.0 k.0 e in
      let (same1, rest1) = field-injective 2 b1 c1 _ _ h.1.0 k.1.0 rest0 in
      let (dash, rest2) = append-injective (codes "-") _ (codes "-") _ refl rest1 in
      let same = hex_bytes-injective bs cs (omega (arith, n, m)) h.1.1 k.1.1 rest2 in
      ap₂ (λ d (ds : List ℕ). d ∷ ds) same0 (ap₂ (λ d (ds : List ℕ). d ∷ ds) same1 same)

  -- A field and the dash after it.
  dashed-injective :
      (k n m : ℕ) (t v : Text)
      → n < 16 ^ k
      → m < 16 ^ k
      → hex_pad a k n ++ (codes "-" ++ t) ≡ hex_pad a k m ++ (codes "-" ++ v)
      → (n ≡ m) × (t ≡ v)
  dashed-injective k n m t v b c e =
      let (same, rest) = field-injective k n m (codes "-" ++ t) (codes "-" ++ v) b c e in
      (same, (append-injective (codes "-") t (codes "-") v refl rest).1)

  guid_text-injective : (g h : Guid) → IsGuid g → IsGuid h → guid_text a g ≡ guid_text a h → g ≡ h
  unfolding guid_text
  guid_text-injective g h v w e =
      let (same1, rest1) = dashed-injective 8 g.data1 h.data1 _ _ v.data1 w.data1 e in
      let (same2, rest2) = dashed-injective 4 g.data2 h.data2 _ _ v.data2 w.data2 rest1 in
      let (same3, rest3) = dashed-injective 4 g.data3 h.data3 _ _ v.data3 w.data3 rest2 in
      let same4 = data4_text-injective g.data4 h.data4 v.length w.length v.bytes w.bytes rest3 in
      ground (arith, same1, same2, same3, same4)

-- Two transactions whose fields are in range have the same text only if they are the same.
pub transaction_text-injective :
    (g h : Guid) → IsGuid g → IsGuid h → transaction_text g ≡ transaction_text h → g ≡ h
unfolding transaction_text
transaction_text-injective g h v w e = guid_text-injective 97 (omega arith) g h v w e
