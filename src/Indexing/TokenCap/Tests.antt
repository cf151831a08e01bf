-- ===== src/Indexing/TokenCap/Tests.antt =====
-- Runs of the token cap, with a tokenizer that counts a thousand tokens for a character.
use codesensei.Common.{
  ℕ, ◌*◌, ◌≤◌, ◌≡◌, refl, none, some, inr, List, [], ◌∷◌, ◌++◌, Text, codes, length, arith,
  splitlines, join_lines, length-append, All,
}
use codesensei.Indexing.Chunk.{ChunkSpec}
use codesensei.Indexing.TokenCap.{max_chunk_tokens, enforce_chunk_token_cap, split_chunk_recursive}
use codesensei.Indexing.TokenCap.Split.{
  IsSplit, split_chunk_recursive-IsSplit, enforce_chunk_token_cap-Counted,
}
use codesensei.Indexing.TokenCap.Endless.{IsTooLong, enforce_chunk_token_cap-eq-none}

abbrev thousands : Text → ℕ
thousands text = 1000 * length text

abbrev chunk_of : Text → ChunkSpec
chunk_of text = record {
  file_path = codes "a.py";
  language = codes "python";
  start_line = 5;
  end_line = 9;
  content = text;
}

halved :
    enforce_chunk_token_cap thousands 4 (chunk_of (codes "abc\nde\nfg\n") ∷ [])
    ≡ some (
        (record (chunk_of (codes "abc")) { end_line = 5 }, 3000)
        ∷ (record (chunk_of (codes "de\nfg")) { start_line = 6; end_line = 7 }, 5000)
        ∷ [])
unfolding enforce_chunk_token_cap splitlines join_lines
halved = refl

enforce_chunk_token_cap-Counted_example :
    (out : List (ChunkSpec × ℕ)) × (enforce_chunk_token_cap thousands 3
        (chunk_of (codes "abc\nde\nfg\n") ∷ [])
      ≡ some out)
    × All (λ (c, n). (n ≡ thousands c.content) × (n ≤ max_chunk_tokens)) out
unfolding splitlines
enforce_chunk_token_cap-Counted_example =
    enforce_chunk_token_cap-Counted thousands 3 (chunk_of (codes "abc\nde\nfg\n") ∷ [])
      (inr (omega arith, omega arith, omega arith), tt)

length-le-join :
    (x : Text) (pre post : List Text) → length x ≤ length (join_lines (pre ++ (x ∷ post)))
unfolding join_lines
length-le-join x [] [] = omega arith
length-le-join x [] (m ∷ post) =
    omega (arith, length-append x (codes "\n" ++ join_lines (m ∷ post)))
length-le-join x (p ∷ []) post =
    omega (arith, length-append p (codes "\n" ++ join_lines (x ∷ post)), length-le-join x [] post)
length-le-join x (p ∷ q ∷ pre) post = omega (
  arith,
  length-append p (codes "\n" ++ join_lines (q ∷ (pre ++ (x ∷ post)))),
  length-le-join x (q ∷ pre) post,
)

eight-IsTooLong : IsTooLong thousands (splitlines (codes "a\n12345678")) (codes "12345678")
eight-IsTooLong ls run (pre, post, e) =
    rw e (omega (arith, length-le-join (codes "12345678") pre post))

enforce_chunk_token_cap-eq-none_example :
    enforce_chunk_token_cap thousands 900 (chunk_of (codes "a\n12345678") ∷ []) ≡ none
unfolding splitlines
enforce_chunk_token_cap-eq-none_example =
    enforce_chunk_token_cap-eq-none thousands (codes "12345678") 900
      (chunk_of (codes "a\n12345678")) [] (omega arith) (codes "a" ∷ [], [], refl) eight-IsTooLong
      (omega arith)

split_chunk_recursive-IsSplit_example :
    IsSplit thousands 5 (codes "abc" ∷ codes "de" ∷ codes "fg" ∷ []) (
      split_chunk_recursive thousands 3
        (chunk_of (codes "abc\nde\nfg\n"))
        (codes "abc" ∷ codes "de" ∷ codes "fg" ∷ []))
split_chunk_recursive-IsSplit_example =
    split_chunk_recursive-IsSplit thousands 3 (chunk_of (codes "abc\nde\nfg\n"))
      (codes "abc" ∷ codes "de" ∷ codes "fg" ∷ []) (omega arith) (omega arith) (omega arith)
