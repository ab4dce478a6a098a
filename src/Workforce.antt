-- ===== src/Workforce.antt =====
-- Workforce of pkg/workforce/workforce.go. A worker is what its interface tells: whether it is alive, and its load.
-- sort.Sort is a parameter, which is given the Less of ByLoad as a test of two workers; Len and Swap of ByLoad are those of
-- every slice.
pub mod Available
use self_host.Prelude.{
  ℕ, ltb, Bool, true, false, not, Option, none, some, List, [], ◌∷◌, map, is_empty, if◌then◌else◌,
  Result, ok, err,
}
use self_host.Text.{Text, text_eq}
use self_host.Text.Map.{TextMap, lookup, insert, delete}

pub record Worker : Type 0 where
  pub alive : Bool
  pub load : ℕ
  -- What else the worker holds.
  pub uri : Text

-- A key stands once.
abbrev pub Workforce : Type 0
Workforce = TextMap Worker

pub data WorkforceError : Type 0 where
  no_available_worker : WorkforceError

unfoldable pub new_workforce : Workforce
new_workforce = []

unfoldable pub add : Text → Worker → Workforce → Workforce
add k w c = insert k w (delete k c)

unfoldable pub remove : Text → Workforce → Workforce
remove k c = delete k c

unfoldable pub clear : Workforce → Workforce
clear c = []

unfoldable pub exists : Text → Workforce → Bool
exists id c = elim (lookup id c) [ none ↦ false | some w ↦ true ]

-- The loop that collects the workers alive.
unfoldable pub alive_workers : Workforce → List Worker
alive_workers [] = []
alive_workers ((k, w) ∷ c) = let rest = alive_workers c in if w.alive then w ∷ rest else rest

unfoldable pub first : List Worker → Result WorkforceError Worker
first [] = err no_available_worker
first (w ∷ ws) = ok w

-- ByLoad.Less, of the workers at its two indices
unfoldable pub less : Worker → Worker → Bool
less v w = ltb v.load w.load

-- sort.Sort is `sort`.
unfoldable pub get_available :
    ((Worker → Worker → Bool) → List Worker → List Worker)
    → Workforce
    → Result WorkforceError Worker
get_available sort c =
    let workers = alive_workers c in
    if not (is_empty workers) then first (sort less workers) else err no_available_worker

-- SetLoad, with the method of the worker.
unfoldable pub set_load : (ℕ → Worker → Worker) → Text → ℕ → Workforce → Workforce
set_load method id l [] = []
set_load method id l ((k, w) ∷ c) =
    let rest = set_load method id l c in
    if text_eq k id then (k, method l w) ∷ rest else (k, w) ∷ rest

-- The workers removed, and the map that is left.
unfoldable pub clear_inactive : Workforce → List Worker × Workforce
clear_inactive [] = ([], [])
clear_inactive ((k, w) ∷ c) =
    let (dead, rest) = clear_inactive c in
    if not w.alive then (w ∷ dead, rest) else (dead, (k, w) ∷ rest)
