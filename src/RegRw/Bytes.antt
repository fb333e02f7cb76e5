-- ===== src/RegRw/Bytes.antt =====
-- The registers are little endian, whatever the host is: what a load with its swap reads, and what a
-- store with its swap writes.
use xpcie.Base.{
  ℕ, zero, suc, ◌+◌, ◌*◌, ◌/◌, ◌%◌, ◌^◌, ◌≤◌, ◌<◌, ◌≡◌, ap₂, Bool-cases, ◌⊎◌, inl, inr, refl, true,
  false, List, [], ◌∷◌, ◌==◌, update, arith,
}
use xpcie.RegRw.{Host, Width, byte, half, word, size_of, put, host_bytes, load, ltoh}

-- The number that little-endian bytes hold.
unfoldable pub le_value : (n : ℕ) → (memory : ℕ → ℕ) → ℕ → ℕ
le_value zero m a = 0
le_value (suc n) m a = m a + 2 ^ 8 * le_value n m (suc a)

-- The bytes of a number, the lowest first.
unfoldable pub le_bytes : (n v : ℕ) → List ℕ
le_bytes zero v = []
le_bytes (suc n) v = v % 2 ^ 8 ∷ le_bytes n (v / 2 ^ 8)

four_bytes :
    {a b c d a' b' c' d' : ℕ}
    → a ≡ a'
    → b ≡ b'
    → c ≡ c'
    → d ≡ d'
    → ◌≡◌ {A = List ℕ} (a ∷ b ∷ c ∷ d ∷ []) (a' ∷ b' ∷ c' ∷ d' ∷ [])
four_bytes ea eb ec ed = ap₂ ◌∷◌ ea (ap₂ ◌∷◌ eb (ap₂ (λ s t. s ∷ t ∷ []) ec ed))

module _ (h : Host) where
  open h use {big_endian, bswap_16, bswap_32, bswap_16_lem, bswap_32_lem}

  swap_16 : (b c : ℕ) → b < 2 ^ 8 → c < 2 ^ 8 → bswap_16 (b * 2 ^ 8 + c) ≡ b + c * 2 ^ 8
  swap_16 b c hb hc = omega (arith, bswap_16_lem (b * 2 ^ 8 + c))

  swap_32 :
      (b c d e : ℕ)
      → b < 2 ^ 8
      → c < 2 ^ 8
      → d < 2 ^ 8
      → e < 2 ^ 8
      → bswap_32 (b * 2 ^ 24 + c * 2 ^ 16 + d * 2 ^ 8 + e) ≡ b + c * 2 ^ 8 + d * 2 ^ 16 + e * 2 ^ 24
  swap_32 b c d e hb hc hd he =
      omega (arith, bswap_32_lem (b * 2 ^ 24 + c * 2 ^ 16 + d * 2 ^ 8 + e))

  module _ (memory : ℕ → ℕ) (bytes : (a : ℕ) → memory a < 2 ^ 8) where
    pub load-le_value :
        (w : Width) (a : ℕ) → ltoh h w (load big_endian w memory a) ≡ le_value (size_of w) memory a
    unfolding load ltoh le_value
    load-le_value byte a = omega arith
    load-le_value half a =
        let one : a + 1 ≡ suc a = omega arith in
        elim (Bool-cases big_endian) [
          | inl big ↦
              rw (big, swap_16 (memory a) (memory (a + 1)) (bytes a) (bytes (a + 1)), one)
                (omega arith)
          | inr little ↦ rw (little, one) (omega arith)
        ]
    load-le_value word a =
        let one : a + 1 ≡ suc a = omega arith in
        let two : a + 2 ≡ suc (suc a) = omega arith in
        let three : a + 3 ≡ suc (suc (suc a)) = omega arith in
        elim (Bool-cases big_endian) [
          | inl big ↦
              rw
                (
                  big,
                  swap_32 (memory a) (memory (a + 1)) (memory (a + 2)) (memory (a + 3)) (bytes a)
                      (bytes (a + 1)) (bytes (a + 2)) (bytes (a + 3)),
                  one,
                  two,
                  three,
                )
                (omega arith)
          | inr little ↦ rw (little, one, two, three) (omega arith)
        ]

  pub store-le_bytes :
      (w : Width) (v : ℕ)
      → v < 2 ^ 32
      → host_bytes big_endian w (ltoh h w v) ≡ le_bytes (size_of w) v
  unfolding host_bytes ltoh le_bytes
  store-le_bytes byte v fits = refl
  store-le_bytes half v fits = elim (Bool-cases big_endian) [
    | inl big ↦
        let low : bswap_16 v / 2 ^ 8 % 2 ^ 8 ≡ v % 2 ^ 8 = omega (arith, bswap_16_lem v) in
        let high : bswap_16 v % 2 ^ 8 ≡ v / 2 ^ 8 % 2 ^ 8 = omega (arith, bswap_16_lem v) in
        rw big (ap₂ (λ s t. s ∷ t ∷ []) low high)
    | inr little ↦ rw little refl
  ]
  store-le_bytes word v fits = elim (Bool-cases big_endian) [
    | inl big ↦
        let one : bswap_32 v / 2 ^ 24 % 2 ^ 8 ≡ v % 2 ^ 8 = omega (arith, bswap_32_lem v) in
        let two : bswap_32 v / 2 ^ 16 % 2 ^ 8 ≡ v / 2 ^ 8 % 2 ^ 8 = omega (arith, bswap_32_lem v) in
        let three : bswap_32 v / 2 ^ 8 % 2 ^ 8 ≡ v / 2 ^ 8 / 2 ^ 8 % 2 ^ 8 =
          omega (arith, bswap_32_lem v) in
        let four : bswap_32 v % 2 ^ 8 ≡ v / 2 ^ 8 / 2 ^ 8 / 2 ^ 8 % 2 ^ 8 =
          omega (arith, bswap_32_lem v) in
        rw big (four_bytes one two three four)
    | inr little ↦
        let three : v / 2 ^ 16 % 2 ^ 8 ≡ v / 2 ^ 8 / 2 ^ 8 % 2 ^ 8 = omega arith in
        let four : v / 2 ^ 24 % 2 ^ 8 ≡ v / 2 ^ 8 / 2 ^ 8 / 2 ^ 8 % 2 ^ 8 = omega arith in
        rw little (four_bytes refl refl three four)
  ]

-- A byte that is stored is not in the number that starts behind it.
le_value-update :
    (n a b c : ℕ) (memory : ℕ → ℕ) → a < c → le_value n (update memory a b) c ≡ le_value n memory c
unfolding le_value
le_value-update zero a b c memory h = refl
le_value-update (suc n) a b c memory h =
    let other : (a == c) ≡ false = ground arith in
    rw (other, le_value-update n a b (suc c) memory (omega arith)) refl

-- The lowest bytes of a number.
abbrev low_bytes : (n v : ℕ) → ℕ
low_bytes zero v = 0
low_bytes (suc n) v = v % 2 ^ 8 + 2 ^ 8 * low_bytes n (v / 2 ^ 8)

le_value-put :
    (n a v : ℕ) (memory : ℕ → ℕ) → le_value n (put a (le_bytes n v) memory) a ≡ low_bytes n v
unfolding le_value le_bytes
le_value-put zero a v memory = refl
le_value-put (suc n) a v memory =
    let here : (a == a) ≡ true = ground arith in
    let others = put (suc a) (le_bytes n (v / 2 ^ 8)) memory in
    rw
      (
        here,
        le_value-update n a (v % 2 ^ 8) (suc a) others (omega arith),
        le_value-put n (suc a) (v / 2 ^ 8) memory,
      )
      refl

-- A store of a number, read back.
pub le_value-put-size_of :
    (w : Width) (a v : ℕ) (memory : ℕ → ℕ)
    → le_value (size_of w) (put a (le_bytes (size_of w) v) memory) a ≡ v % 2 ^ (8 * size_of w)
le_value-put-size_of byte a v memory = omega (arith, le_value-put 1 a v memory)
le_value-put-size_of half a v memory = omega (arith, le_value-put 2 a v memory)
le_value-put-size_of word a v memory = omega (arith, le_value-put 4 a v memory)

pub put-outside :
    (n a v j : ℕ) (memory : ℕ → ℕ)
    → (j < a) ⊎ (a + n ≤ j)
    → put a (le_bytes n v) memory j ≡ memory j
unfolding le_bytes
put-outside zero a v j memory out = refl
put-outside (suc n) a v j memory out =
    let other : (a == j) ≡ false = ground arith in
    rw other (put-outside n (suc a) (v / 2 ^ 8) j memory (behind out))
  where
    behind : (j < a) ⊎ (a + suc n ≤ j) → (j < suc a) ⊎ (suc a + n ≤ j)
    behind (inl lt) = inl (omega arith)
    behind (inr le) = inr (omega arith)

pub put-bytes :
    (n a v : ℕ) (memory : ℕ → ℕ)
    → ((j : ℕ) → memory j < 2 ^ 8)
    → (j : ℕ) → put a (le_bytes n v) memory j < 2 ^ 8
unfolding le_bytes
put-bytes zero a v memory bytes j = bytes j
put-bytes (suc n) a v memory bytes j = elim (Bool-cases (a == j)) [
  | inl here ↦ rw here (omega arith)
  | inr other ↦ rw other (put-bytes n (suc a) (v / 2 ^ 8) memory bytes j)
]
