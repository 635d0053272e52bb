-- ===== src/Ports/Sticky.antt =====
-- apps/utils/greffon/sticky_ports.py: the `l4_ports.json` sidecar of an instance.
pub mod RoundTrip
use greffer.Prelude.{
  ℕ, String, Bool, true, false, Option, none, some, [], ◌∷◌, nat_eq, string_eq, Dict, put,
}

-- A value of the JSON object: what `int` reads as a port, or what it refuses.
pub data JsonPort : Type 0 where
  number : ℕ → JsonPort
  malformed : JsonPort

-- The sidecar as `load` finds it. A missing file, an unreadable one and text that is not JSON
-- all raise an exception that `load` catches.
pub data Sidecar : Type 0 where
  unreadable : Sidecar
  not_an_object : Sidecar
  object : Dict String JsonPort → Sidecar

load_entries : Dict String JsonPort → Dict String ℕ → Dict String ℕ
load_entries [] out = out
load_entries ((name, number port) ∷ d) out = load_entries d (put out name port)
load_entries ((name, malformed) ∷ d) out = load_entries d out

unfoldable pub load : Sidecar → Dict String ℕ
unfolding load_entries
load unreadable = []
load not_an_object = []
load (object d) = load_entries d []

payload : Dict String ℕ → Dict String JsonPort
payload [] = []
payload ((name, port) ∷ d) = (name, number port) ∷ payload d

-- `save` replaces the file atomically: on an error the old sidecar is still there.
unfoldable pub save : Bool → Dict String ℕ → Sidecar → Option Sidecar
unfolding payload
save true mapping old = some (object (payload mapping))
save false mapping old = none
