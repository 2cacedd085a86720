-- ===== src/Proto/Bytes.antt =====
-- What `encoding/binary` and `fmt` do with the bytes of an identifier.
use native.Mathlib.Nat.{pow-suc}
use zipkin_go.Base.{
  ℕ, zero, suc, ◌+◌, ◌*◌, ◌/◌, ◌%◌, ◌^◌, ◌<◌, ◌≡◌, refl, sym, ap, ◌∙◌, List, [], ◌∷◌, ◌++◌,
  append_assoc, append-nil, arith, Str, length, length-append,
}
use zipkin_go.Strconv.{hex_pad}

-- The `w` bytes of a number, the highest first; `PutUint64` writes `be_bytes 8`.
unfoldable pub be_bytes : ℕ → ℕ → List ℕ
be_bytes zero n = []
be_bytes (suc w) n = be_bytes w (n / 256) ++ n % 256 ∷ []

-- `Uint64`, behind the bytes that `n` stands for.
unfoldable pub be_value : ℕ → List ℕ → ℕ
be_value n [] = n
be_value n (b ∷ bs) = be_value (n * 256 + b) bs

-- `fmt.Sprintf("%x", bs)`.
unfoldable pub hex_bytes : List ℕ → Str
hex_bytes [] = []
hex_bytes (b ∷ bs) = hex_pad 2 b ++ hex_bytes bs

pub length-be_bytes : (w n : ℕ) → length (be_bytes w n) ≡ w
unfolding be_bytes
length-be_bytes zero n = refl
length-be_bytes (suc w) n =
    omega (arith, length-append (be_bytes w (n / 256)) (n % 256 ∷ []), length-be_bytes w (n / 256))

be_value-append : (n b : ℕ) (bs : List ℕ) → be_value n (bs ++ b ∷ []) ≡ be_value n bs * 256 + b
unfolding be_value
be_value-append n b [] = refl
be_value-append n b (x ∷ bs) = be_value-append (n * 256 + x) b bs

pub be_value-be_bytes : (w n : ℕ) → n < 256 ^ w → be_value 0 (be_bytes w n) ≡ n
unfolding be_bytes
be_value-be_bytes zero n h = unfold be_value in omega arith
be_value-be_bytes (suc w) n h =
    be_value-append 0 (n % 256) (be_bytes w (n / 256))
    ∙ ap (λ x. x * 256 + n % 256) (be_value-be_bytes w (n / 256) (omega (arith, pow-suc 256 w)))
    ∙ omega arith

pub hex_bytes-append : (xs ys : List ℕ) → hex_bytes (xs ++ ys) ≡ hex_bytes xs ++ hex_bytes ys
unfolding hex_bytes
hex_bytes-append [] ys = refl
hex_bytes-append (x ∷ xs) ys =
    ap (λ s. hex_pad 2 x ++ s) (hex_bytes-append xs ys)
    ∙ sym (append_assoc (hex_pad 2 x) (hex_bytes xs) (hex_bytes ys))

pub hex_pad-byte : (w n : ℕ) → hex_pad w (n / 256) ++ hex_pad 2 (n % 256) ≡ hex_pad (suc (suc w)) n
unfolding hex_pad
hex_pad-byte w n =
    let a : n / 16 / 16 ≡ n / 256 = omega arith in
    let b : n / 16 % 16 ≡ n % 256 / 16 % 16 = omega arith in
    let c : n % 16 ≡ n % 256 % 16 = omega arith in
    rw (a, b, c) (sym (append_assoc (hex_pad w (n / 256)) _ _))

-- The bytes of a number are printed as the number is.
pub hex_bytes-be_bytes : (w n : ℕ) → hex_bytes (be_bytes w n) ≡ hex_pad (w + w) n
unfolding be_bytes hex_bytes
hex_bytes-be_bytes zero n = unfold hex_pad in refl
hex_bytes-be_bytes (suc w) n =
    let e : suc w + suc w ≡ suc (suc (w + w)) = omega arith in
    hex_bytes-append (be_bytes w (n / 256)) (n % 256 ∷ [])
    ∙ ap (λ s. s ++ (hex_pad 2 (n % 256) ++ [])) (hex_bytes-be_bytes w (n / 256))
    ∙ ap (λ s. hex_pad (w + w) (n / 256) ++ s) (append-nil (hex_pad 2 (n % 256)))
    ∙ hex_pad-byte (w + w) n
    ∙ ap (λ k. hex_pad k n) (sym e)
