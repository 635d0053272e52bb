-- ===== src/Ports/Sticky/RoundTrip.antt =====
-- What `save` writes, `load` reads back.
use greffer.Ports.Sticky.{Sidecar, object, load_entries, load, payload, save}
use greffer.Prelude.{
  Bool, true, false, ℕ, String, ◌≡◌, refl, ◌∙◌, true, Option, none, some, [], ◌∷◌, arith, eq_iff,
  nat_eq, string_eq, Dict, get, put, get-put, Unique,
}

-- A later reading of a name wins over an earlier one.
abbrev override : Option ℕ → Option ℕ → Option ℕ
override none old = old
override (some v) old = some v

load_entries-payload :
    (d out : Dict String ℕ) (name : String)
    → Unique d
    → get (load_entries (payload d) out) name ≡ override (get d name) (get out name)
unfolding load_entries payload get
load_entries-payload [] out name u = refl
load_entries-payload ((j, v) ∷ d) out name (fresh, u) =
    ground (arith, load_entries-payload d (put out j v) name u, get-put out j name v, eq_iff j name)

override-none : (o : Option ℕ) → override o none ≡ o
override-none none = refl
override-none (some v) = refl

-- Once `save` has succeeded, the map that `load` returns is the map that was saved, name for name.
pub load-save :
    (writable : Bool) (mapping : Dict String ℕ) (old file : Sidecar) (name : String)
    → Unique mapping
    → save writable mapping old ≡ some file
    → get (load file) name ≡ get mapping name
unfolding save load get
load-save true mapping old file name u h =
    let some_file : object (payload mapping) ≡ file = cc h in
    rw (← some_file) (load_entries-payload mapping [] name u ∙ override-none (get mapping name))
load-save false mapping old file name u h = cc
