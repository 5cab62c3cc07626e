-- ===== src/Tests/Streams.antt =====
-- The dense cache, the stream of completion events and the tracker of experiments at small inputs.
use Prim.Native.String.{String}
use nifre.Prelude.{ℕ, ◌+◌, ◌≡◌, ◌≢◌, refl, List, [], ◌∷◌, none, some, arith, get_elem?}
use nifre.Prelude.Exec.{ok}
use nifre.DenseCache.{Dense, append, get}
use nifre.DenseCache.Rows.{Appended, append-Appended, append-elsewhere}
use nifre.Optimization.{Call, run, new_tracker, Counted, new_tracker-run-Counted}
use nifre.Completions.{Event, stream_openai_completion_events, stream-one_per_token}

-- Two layers, three positions and two slots; the first slot has one row.
abbrev cache : Dense ℕ
cache = record {
  num_layers = 2;
  max_seq_len = 3;
  pos = 1 ∷ 0 ∷ [];
  store = λ layer slot position. layer + slot + position;
}

append-Appended_example : Appended cache 0 1 1 (8 ∷ 9 ∷ [])
append-Appended_example = append-Appended cache 0 1 1 (8 ∷ 9 ∷ []) refl

append-elsewhere_example :
    (get_elem? (append 0 1 (8 ∷ []) cache).1.pos 1 ≡ get_elem? cache.pos 1)
    × ((append 0 1 (8 ∷ []) cache).1.store 1 1 ≡ cache.store 1 1)
append-elsewhere_example =
    let apart : 0 ≢ 1 = ground arith in append-elsewhere cache 0 1 1 1 (8 ∷ []) apart

appended_rows : (get 0 1 (append 0 1 (8 ∷ 9 ∷ []) cache).1).0 ≡ ok (1 ∷ 8 ∷ 9 ∷ [])
unfolding append get
appended_rows = refl

abbrev spoken : List ℕ → String
spoken tokens = "la"

stream-one_per_token_example :
    stream_openai_completion_events spoken (4 ∷ 5 ∷ [])
    ≡ Event.chunk "la" none ∷ Event.chunk "la" (some "length") ∷ Event.done ∷ []
stream-one_per_token_example = stream-one_per_token spoken (4 ∷ []) 5

new_tracker-run-Counted_example : Counted {F = ℕ} (
    run
      (Call.attempt "chunks" "" 3 ∷ Call.baseline 5 6 ∷ Call.rollback "chunks" "" 4 ∷ [])
      new_tracker)
new_tracker-run-Counted_example =
    new_tracker-run-Counted
      (Call.attempt "chunks" "" 3 ∷ Call.baseline 5 6 ∷ Call.rollback "chunks" "" 4 ∷ [])
