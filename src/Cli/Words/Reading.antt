-- ===== src/Cli/Words/Reading.antt =====
-- Words that are read back from a request line of src/cli/clisrv_context.cpp.
use de_co_f.Base.{ℕ, ◌≡◌, refl, false, [], ◌∷◌, ◌++◌, All, Bytes, is_empty}
use de_co_f.Cli.Words.{
  is_space, skip_spaces, split_word, read_word, to_lower, strip_quote, words_of,
}

abbrev pub space : ℕ
space = 32

-- A word is not empty and has no space.
pub data IsWord : Bytes → Type 0 where
  word :
      (c : ℕ) (cs : Bytes) → is_space c ≡ false → All (λ d. is_space d ≡ false) cs → IsWord (c ∷ cs)

split_word-append :
    (w rest : Bytes)
    → All (λ d. is_space d ≡ false) w
    → split_word (w ++ (space ∷ rest)) ≡ (w, space ∷ rest)
unfolding split_word is_space
split_word-append [] rest h = refl
split_word-append (c ∷ cs) rest (n, h) = rw (n, split_word-append cs rest h) refl

pub read_word-append :
    (w rest : Bytes) → IsWord w → read_word (w ++ (space ∷ rest)) ≡ (w, space ∷ rest)
unfolding read_word skip_spaces
read_word-append _ rest (word c cs n h) = rw n (split_word-append (c ∷ cs) rest (n, h))

pub read_word-space :
    (w rest : Bytes) → IsWord w → read_word (space ∷ (w ++ (space ∷ rest))) ≡ (w, space ∷ rest)
unfolding read_word skip_spaces is_space
read_word-space w rest h = read_word-append w rest h

split_word-All : (w : Bytes) → All (λ d. is_space d ≡ false) w → split_word w ≡ (w, [])
unfolding split_word is_space
split_word-All [] h = refl
split_word-All (c ∷ cs) (n, h) = rw (n, split_word-All cs h) refl

read_word-last : (w : Bytes) → IsWord w → read_word (space ∷ w) ≡ (w, [])
unfolding read_word skip_spaces is_space
read_word-last _ (word c cs n h) = rw n (split_word-All (c ∷ cs) (n, h))

pub words_of-two :
    (v w : Bytes)
    → IsWord v
    → IsWord w
    → words_of (v ++ (space ∷ w)) ≡ (to_lower v, strip_quote w, [])
unfolding words_of
words_of-two v w h k = rw (read_word-append v w h, read_word-last w k) refl

pub words_of-words :
    (v w rest : Bytes)
    → IsWord v
    → IsWord w
    → words_of (v ++ (space ∷ (w ++ (space ∷ rest)))) ≡ (to_lower v, strip_quote w, space ∷ rest)
unfolding words_of
words_of-words v w rest h k =
    rw (read_word-append v (w ++ (space ∷ rest)) h, read_word-space w rest k) refl

-- The line of `words_of-words` is not empty.
pub is_empty-words : (v rest : Bytes) → IsWord v → is_empty (v ++ rest) ≡ false
is_empty-words _ rest (word c cs n h) = refl
