-- ===== src/Reward/Copying.antt =====
-- src/tts/reward/copy_penalty.py: the penalty on a summary that copies its source. `lower` is
-- Python's `str.lower`.
use tts_tokens_that_suffice.Prelude.{
  ℕ, zero, suc, ◌+◌, ◌-◌, Bool, true, false, not, ◌&&◌, ◌||◌, List, [], ◌∷◌, ltb, ◌==◌,
  if◌then◌else◌, length, take, drop, count, any, Text, codes, text_eq, occurs_in, is_nonempty,
}
use tts_tokens_that_suffice.Reward.Floats.{Floats}
use tts_tokens_that_suffice.Mask.Tags.{is_space, Runtime}
use tts_tokens_that_suffice.Rendering.{messages_text}
use tts_tokens_that_suffice.Message.{Message}

abbrev pub copy_markers : List Text
copy_markers = codes "<EVENT" ∷ codes "</EVENT>" ∷ codes "<tool_call>" ∷ codes "</tool_call>" ∷ []

unfoldable pub has_copy_markers : (Text → Text) → Text → Bool
unfolding occurs_in
has_copy_markers lower summary_text =
    any (λ m. occurs_in (lower m) (lower summary_text)) copy_markers

-- One more character before the words of a text, of which the first may go on.
unfoldable pub grow_word : ℕ → Bool → List Text → List Text
grow_word c true (w ∷ ws) = (c ∷ w) ∷ ws
grow_word c _ ws = (c ∷ []) ∷ ws

-- Whether a text begins inside a word.
unfoldable pub in_word : Text → Bool
unfolding is_space
in_word [] = false
in_word (c ∷ s) = not (is_space c)

-- s.split()
unfoldable pub split_words : Text → List Text
unfolding grow_word in_word
split_words [] = []
split_words (c ∷ s) =
    let rest = split_words s in if is_space c then rest else grow_word c (in_word s) rest

-- [tuple(words[i : i + n]) for i in range(count)]
unfoldable pub grams : ℕ → ℕ → List Text → List (List Text)
grams n zero words = []
grams n (suc count) words = take n words ∷ grams n count (drop 1 words)

-- a == b, of two tuples
unfoldable pub gram_eq : List Text → List Text → Bool
unfolding text_eq
gram_eq [] [] = true
gram_eq [] (w ∷ ws) = false
gram_eq (v ∷ vs) [] = false
gram_eq (v ∷ vs) (w ∷ ws) = text_eq v w && gram_eq vs ws

-- The grams of `words` that stand among `source_grams`.
unfoldable pub copied : List (List Text) → List (List Text) → ℕ
unfolding gram_eq
copied source_grams s_grams = count (λ g. any (λ h. gram_eq g h) source_grams) s_grams

-- What copy_penalty returns beside the penalty.
pub record Components (F : Type 0) : Type 0 where
  pub n_z_tokens : ℕ
  pub n_x_tokens : ℕ
  pub len_ratio : F
  pub overlap : F
  pub len_penalty : F
  pub copy_penalty : F
  pub marker_penalty : F
  pub total_penalty : F

-- The keyword arguments of the penalty.
pub record Penalties (F : Type 0) : Type 0 where
  pub lambda_len : F
  pub lambda_copy : F
  pub copy_threshold : F
  pub marker_penalty : F

module _ {F : Type 0} (f : Floats F) where
  -- a / b, of two ints
  unfoldable pub ratio : ℕ → ℕ → F
  ratio a b = f.div (f.of_int a) (f.of_int b)

  unfoldable pub ngram_overlap : Text → Text → ℕ → F
  unfolding split_words grams copied ratio
  ngram_overlap summary_text source n =
      let s_words = split_words summary_text in
      let x_words = split_words source in
      if ltb (length s_words) n || ltb (length x_words) n
      then f.nought
      else let source_grams = grams n (length x_words + 1 - n) x_words in
        let s_grams = grams n (length s_words + 1 - n) s_words in
        if length s_grams == 0
        then f.nought
        else ratio (copied source_grams s_grams) (length s_grams)

  -- max(0.0, x)
  unfoldable pub at_least_nought : F → F
  at_least_nought x = if f.lt f.nought x then x else f.nought

  unfoldable pub copy_term : F → F → F
  unfolding at_least_nought
  copy_term overlap threshold =
      let denom = f.sub f.one threshold in
      if f.lt f.nought denom
      then f.div (at_least_nought (f.sub overlap threshold)) denom
      else f.nought

  -- len(tokenizer.encode(s)) if s else 0
  unfoldable pub n_encoded : (Text → List ℕ) → Text → ℕ
  n_encoded encode s = if is_nonempty s then length (encode s) else 0

  unfoldable pub copy_penalty :
      (py : Runtime) (lower : Text → Text) (encode : Text → List ℕ)
      → Penalties F
      → Text
      → List Message
      → F × Components F
  unfolding messages_text n_encoded ratio ngram_overlap copy_term has_copy_markers
  copy_penalty py lower encode given summary_text x_messages =
      let x_text = messages_text py x_messages in
      let n_z = n_encoded encode summary_text in
      let n_x = n_encoded encode x_text in
      let len_ratio = if n_x == 0 then f.nought else ratio n_z n_x in
      let len_pen = f.mul given.lambda_len len_ratio in
      let overlap = ngram_overlap summary_text x_text 8 in
      let copy_pen = f.mul given.lambda_copy (copy_term overlap given.copy_threshold) in
      let marker_pen =
        if has_copy_markers lower summary_text then given.marker_penalty else f.nought in
      let all_of_it = f.add (f.add len_pen copy_pen) marker_pen in
      (
        all_of_it,
        record {
          n_z_tokens = n_z;
          n_x_tokens = n_x;
          len_ratio = len_ratio;
          overlap = overlap;
          len_penalty = len_pen;
          copy_penalty = copy_pen;
          marker_penalty = marker_pen;
          total_penalty = all_of_it;
        },
      )
