-- ===== src/Tests/Hf.antt =====
-- The cache for Hugging Face models at small inputs: rows are numbers, there is one layer, and a
-- row has eight bytes.
use mathlib.Core.Option.{some_inj}
use nifre.Prelude.{
  ℕ, zero, suc, ◌+◌, ◌*◌, ◌<◌, ◌≡◌, refl, sym, ap, ◌∙◌, List, [], ◌∷◌, ◌++◌, Option, none, some,
  length, drop, ◌-◌, get_elem?, arith,
}
use nifre.Prelude.Exec.{Outcome, ok, raised, value_error}
use nifre.OrderedDict.{find, key_eq, without}
use nifre.HfCache.{
  Past, BlockCache, HfCache, new_block_cache, past_length, make_room, insert, lookup, block_slices,
  join_layers, layer_rows,
}
use nifre.HfCache.Methods.{forward, try_load_prefix}
use nifre.HfCache.Prefix.{BlockValid, BlockKeeps}
use nifre.HfCache.Insert.{Inserted, insert-Inserted}
use nifre.HfCache.Lookup.{Found, lookup-Found}
use nifre.HfCache.Eviction.{make_room-terminates}
use nifre.HfCache.Slots.{HfValid}
use nifre.HfCache.Forward.{Fits, Forwarded, forward-Forwarded}
use nifre.HfCache.Load.{Loaded, try_load_prefix-Loaded}

-- Stands for Python's `hash`.
abbrev toy_hash : ℕ → List ℕ → ℕ
toy_hash h [] = h * 7 + 1
toy_hash h (x ∷ xs) = toy_hash (h * 7 + x) xs

abbrev empty : BlockCache ℕ
empty = new_block_cache 2 4

empty-Valid : BlockValid 8 1 empty
unfolding new_block_cache find
empty-Valid = record {
  dict = tt;
  sized = λ k block e. cc;
  layered = λ k block e. cc;
  memory = refl;
  counted = refl;
  bounded = omega arith;
  positive = omega arith;
}

abbrev prompt : List ℕ
prompt = 5 ∷ 6 ∷ 7 ∷ 8 ∷ []

abbrev layers : Past ℕ
layers = (15 ∷ 16 ∷ 17 ∷ 18 ∷ []) ∷ []

insert-Inserted_example :
    (c : BlockCache ℕ) × (insert 8 toy_hash prompt layers 4 empty ≡ (ok tt, c))
    × BlockKeeps 8 1 empty c
    × Inserted toy_hash 2 2 0 prompt layers empty c
unfolding new_block_cache
insert-Inserted_example =
    insert-Inserted toy_hash 8 1 prompt layers empty empty-Valid (omega arith) refl

abbrev warm : BlockCache ℕ
warm = (insert 8 toy_hash prompt layers (past_length layers) empty).1

warm-Valid : BlockValid 8 1 warm × (0 < warm.block_size)
unfolding new_block_cache
warm-Valid =
    let (c, e, k, _) =
      insert-Inserted toy_hash 8 1 prompt layers empty empty-Valid (omega arith) refl in
    rw (warm, e) (k.valid, rw k.same_size (omega arith))

lookup-Found_example :
    Found 1 toy_hash (5 ∷ 6 ∷ 9 ∷ []) warm (lookup 8 toy_hash (5 ∷ 6 ∷ 9 ∷ []) warm).0
    × BlockKeeps 8 1 warm (lookup 8 toy_hash (5 ∷ 6 ∷ 9 ∷ []) warm).1
lookup-Found_example = lookup-Found 8 1 toy_hash (5 ∷ 6 ∷ 9 ∷ []) warm warm-Valid.0 warm-Valid.1

abbrev hf : HfCache ℕ
hf = record { max_seq_len = 8; pos = 0 ∷ 0 ∷ []; past = none ∷ none ∷ []; prefix = some warm }

no_past : (i : ℕ) (p : Past ℕ) → get_elem? hf.past i ≡ some (some p) → length p ≡ 1
no_past zero p e = absurd (ground arith)
no_past (suc zero) p e = absurd (ground arith)
no_past (suc (suc i)) p e = absurd (ground arith)

hf-Valid : HfValid 8 1 hf
hf-Valid = record { cursors = refl; layered = no_past; prefix = warm-Valid }

-- A model of one layer that adds a row for each token to the past that it is passed, in place, and
-- answers with 9.
abbrev longer : List ℕ → Option (Past ℕ) → Past ℕ
longer ids none = ids ∷ []
longer ids (some []) = ids ∷ []
longer ids (some (rows ∷ more)) = (rows ++ ids) ∷ []

abbrev toy_model : List ℕ → Option (Past ℕ) → Past ℕ × Outcome (Past ℕ × ℕ)
toy_model ids q = (longer ids q, ok (longer ids q, 9))

longer-layered : (ids : List ℕ) (q : Option (Past ℕ)) → length (longer ids q) ≡ 1
longer-layered ids none = refl
longer-layered ids (some []) = refl
longer-layered ids (some (rows ∷ more)) = refl

abbrev first_of : Past ℕ → Outcome (Past ℕ × ℕ) → Past ℕ
first_of p (ok out) = out.0
first_of p (raised e) = p

toy_model-layered :
    (ids : List ℕ) (q : Option (Past ℕ)) (p : Past ℕ) (t : ℕ)
    → (toy_model ids q).1 ≡ ok (p, t)
    → length p ≡ 1
toy_model-layered ids q p t e = ap length (ap (first_of p) (sym e)) ∙ longer-layered ids q

hf-Fits : Fits hf
hf-Fits zero n e = let z : 0 ≡ n = some_inj.0 e in omega arith
hf-Fits (suc zero) n e = let z : 0 ≡ n = some_inj.0 e in omega arith
hf-Fits (suc (suc i)) n e = absurd cc

forward-Forwarded_example :
    Forwarded 8 1
      (λ tokens. length tokens ≡ 2)
      hf
      (forward toy_model ((1 ∷ 2 ∷ []) ∷ (3 ∷ []) ∷ []) none (0 ∷ 1 ∷ []) hf)
forward-Forwarded_example =
    forward-Forwarded 8 1 toy_model toy_model-layered ((1 ∷ 2 ∷ []) ∷ (3 ∷ []) ∷ []) none
      (0 ∷ 1 ∷ []) hf hf-Valid hf-Fits

-- A past of two rows, in a cache for three: two more rows are too many.
abbrev nearly_full : HfCache ℕ
nearly_full = record {
  max_seq_len = 3;
  pos = 2 ∷ [];
  past = some ((1 ∷ 2 ∷ []) ∷ []) ∷ [];
  prefix = none;
}

overrun_raises :
    (forward toy_model ((3 ∷ 4 ∷ []) ∷ []) none (0 ∷ []) nearly_full).0 ≡ raised value_error
unfolding forward
overrun_raises = refl

-- The past has grown, and the cursor has not moved.
overrun_past :
    (forward toy_model ((3 ∷ 4 ∷ []) ∷ []) none (0 ∷ []) nearly_full).1.past
    ≡ some ((1 ∷ 2 ∷ 3 ∷ 4 ∷ []) ∷ []) ∷ []
unfolding forward
overrun_past = refl

overrun_pos : (forward toy_model ((3 ∷ 4 ∷ []) ∷ []) none (0 ∷ []) nearly_full).1.pos ≡ 2 ∷ []
unfolding forward
overrun_pos = refl

try_load_prefix-Loaded_example :
    Loaded 8 1 1 (5 ∷ 6 ∷ 9 ∷ []) hf (try_load_prefix 8 toy_hash 1 (5 ∷ 6 ∷ 9 ∷ []) hf)
try_load_prefix-Loaded_example = try_load_prefix-Loaded 8 1 toy_hash 1 (5 ∷ 6 ∷ 9 ∷ []) hf hf-Valid

-- The first block of the prompt is cached; slot 1 gets its two rows.
load_runs : (try_load_prefix 8 toy_hash 1 (5 ∷ 6 ∷ 9 ∷ []) hf).0 ≡ ok 2
unfolding insert new_block_cache try_load_prefix lookup block_slices join_layers layer_rows key_eq
    without
load_runs = refl

load_pos : (try_load_prefix 8 toy_hash 1 (5 ∷ 6 ∷ 9 ∷ []) hf).1.pos ≡ 0 ∷ 2 ∷ []
unfolding insert new_block_cache try_load_prefix lookup block_slices join_layers layer_rows key_eq
    without
load_pos = refl

-- A row of two tokens into slot 1; the other slot stays as it is.
forward_runs :
    (forward toy_model ((1 ∷ 2 ∷ []) ∷ []) (some (1 ∷ [])) (1 ∷ []) hf).1.pos ≡ 0 ∷ 1 ∷ []
unfolding forward
forward_runs = refl

two_entries : length warm.entries < 3
unfolding insert new_block_cache block_slices key_eq without
two_entries = omega arith

-- Two entries in a cache for two: the older one goes.
make_room-terminates_example :
    (c : BlockCache ℕ) × (make_room 8 3 (record warm { max_entries = 2 }) ≡ (ok tt, c))
    × (length c.entries < c.max_entries)
    × (c.max_entries ≡ 2)
    × (c.entries ≡ drop (length warm.entries + 1 - 2) warm.entries)
make_room-terminates_example =
    make_room-terminates 8 3 (record warm { max_entries = 2 }) (omega arith) two_entries
