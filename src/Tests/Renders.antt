-- ===== src/Tests/Renders.antt =====
-- The laws of reversed hunks and of rendered turns, applied to samples.
use tts_tokens_that_suffice.Prelude.{
  ℕ, ◌≡◌, refl, Bool, true, false, ◌&&◌, some, List, [], ◌∷◌, ◌++◌, leb, Text, codes, ok, none,
  decimal,
}
use tts_tokens_that_suffice.Patches.{reverse_hunk, minus, plus}
use tts_tokens_that_suffice.Patches.Sides.{side}
use tts_tokens_that_suffice.Patches.Diff.{reverse_diff}
use tts_tokens_that_suffice.Rendering.{
  Template, Generation, reconstruct_generation, to_template_tool_calls,
}
use tts_tokens_that_suffice.Rendering.Replies.{
  IsGenerated, reconstruct_generation-IsGenerated, messages_to_steps-to_template_tool_calls,
}
use tts_tokens_that_suffice.Trajectory.{messages_to_steps}
use tts_tokens_that_suffice.Tests.Samples.{blind_codec, preamble, act, history}
use tts_tokens_that_suffice.Patches.Hunks.{reverse_hunk-side}
use tts_tokens_that_suffice.Rendering.Events.{Extra, parse_messages, parse_messages-length}
use tts_tokens_that_suffice.Compaction.Turns.{turns}

-- A changed line between two that stay, at the end of a file.
abbrev hunk : List Text
hunk =
    codes " a"
    ∷ codes "-b"
    ∷ codes "\\ No newline at end of file"
    ∷ codes "+c"
    ∷ codes "+d"
    ∷ codes " e"
    ∷ []

hunk_run :
    reverse_hunk hunk
    ≡ codes " a"
      ∷ codes "-c"
      ∷ codes "-d"
      ∷ codes "+b"
      ∷ codes "\\ No newline at end of file"
      ∷ codes " e"
      ∷ []
unfolding reverse_hunk
hunk_run = refl

reverse_hunk-side_example :
    (side minus plus (reverse_hunk hunk) ≡ codes " a" ∷ codes "c" ∷ codes "d" ∷ codes " e" ∷ [])
    × (side plus minus (reverse_hunk hunk) ≡ codes " a" ∷ codes "b" ∷ codes " e" ∷ [])
reverse_hunk-side_example = reverse_hunk-side hunk

abbrev ascii_digit : ℕ → Bool
ascii_digit c = leb 48 c && leb c 57

-- The header's ranges and the hashes are swapped.
diff_run :
    reverse_diff ascii_digit
      (λ t. t)
      (codes "diff --git a/f b/f\nindex 12..ab 100644\n@@ -1 +1,2 @@ f\n-b\n+c\n+d")
    ≡ codes "diff --git a/f b/f\nindex ab..12 100644\n@@ -1,2 +1 @@ f\n-c\n-d\n+b"
unfolding reverse_diff
diff_run = refl

-- A template that writes a letter for each message and a newline behind each, and a prompt letter.
abbrev letters : Template
letters [] true = codes "p"
letters [] false = []
letters (m ∷ []) false = codes "pm\n"
letters (m ∷ n ∷ ms) false = codes "m\n" ++ letters (n ∷ ms) false
letters (m ∷ ms) true = codes "m\n" ++ letters ms true

abbrev reply : Generation
reply = record { generated = codes "m"; token_ids = codes "m"; recorded_n_tokens = some 1 }

reply_run : reconstruct_generation blind_codec letters (λ t. t) (some 1) preamble act ≡ ok reply
unfolding reconstruct_generation
reply_run = refl

reconstruct_generation-IsGenerated_example :
    IsGenerated
      (λ t. t)
      (letters
        (to_template_tool_calls blind_codec preamble
          ++ to_template_tool_calls blind_codec (act ∷ []))
        false)
      (letters (to_template_tool_calls blind_codec preamble) true)
      reply
reconstruct_generation-IsGenerated_example =
    reconstruct_generation-IsGenerated blind_codec letters (λ t. t) (some 1) preamble act reply
      reply_run

two_templated :
    messages_to_steps blind_codec (to_template_tool_calls blind_codec (preamble ++ history 1))
    ≡ messages_to_steps blind_codec (preamble ++ history 1)
two_templated = messages_to_steps-to_template_tool_calls blind_codec (preamble ++ history 1)

abbrev no_extra : Extra
no_extra = record { repr = λ ps. []; str_json = λ t. t; raw_output = λ m. none }

events_run :
    parse_messages blind_codec no_extra (preamble ++ history 2)
    ≡ ok (
        codes "run\nTool(bash): {}\nEnvironment:\n1"
        ∷ codes "run\nTool(bash): {}\nEnvironment:\n0"
        ∷ [])
unfolding parse_messages decimal
events_run = refl

two_events : 2 ≡ turns (preamble ++ history 2)
two_events =
    parse_messages-length blind_codec no_extra (preamble ++ history 2)
      (codes "run\nTool(bash): {}\nEnvironment:\n1"
        ∷ codes "run\nTool(bash): {}\nEnvironment:\n0"
        ∷ [])
      events_run
