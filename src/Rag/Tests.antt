-- ===== src/Rag/Tests.antt =====
-- The chunker (agent/travel_agent/rag/text.py) on small inputs.
use mathlib.Core.List.{Sublist}
use route_pilot.Common.{some, List, [], ◌∷◌, ◌≡◌, refl, arith, All}
use route_pilot.Common.Exec.{ok}
use route_pilot.Rag.Chunker.{Chars, Chunker, make_chunker, split}
use route_pilot.Common.Text.{is_space}
use route_pilot.Rag.Ink.{ink, total_ink}
use route_pilot.Rag.Chunks.{split_total, Bounded}

abbrev chunker : Chunker
chunker = record { target_chars = 200; overlap_chars = 20 }

-- Smaller than `make_chunker` lets one be, to see the loops at work.
abbrev narrow : Chunker
narrow = record { target_chars = 4; overlap_chars = 1 }

-- "ab", an empty line with a space, and "cdefg".
abbrev content : Chars
content = 97 ∷ 98 ∷ 10 ∷ 32 ∷ 10 ∷ 99 ∷ 100 ∷ 101 ∷ 102 ∷ 103 ∷ []

chunker_made : make_chunker 200 20 ≡ ok chunker
unfolding make_chunker
chunker_made = refl

one_chunk :
    split chunker content ≡ some (ok ((97 ∷ 98 ∷ 10 ∷ 10 ∷ 99 ∷ 100 ∷ 101 ∷ 102 ∷ 103 ∷ []) ∷ []))
unfolding split is_space
one_chunk = refl

overlapping_chunks :
    split narrow content
    ≡ some (
        ok (
          (97 ∷ 98 ∷ [])
          ∷ (98 ∷ 10 ∷ 10 ∷ 99 ∷ 100 ∷ 101 ∷ 102 ∷ [])
          ∷ (102 ∷ 10 ∷ 10 ∷ 102 ∷ 103 ∷ [])
          ∷ []))
unfolding split is_space
overlapping_chunks = refl

split_total_example :
    (cs : List Chars) × (split chunker content ≡ some (ok cs))
    × All (Bounded chunker) cs
    × Sublist (ink content) (total_ink cs)
split_total_example = split_total chunker content (omega arith) (omega arith)
