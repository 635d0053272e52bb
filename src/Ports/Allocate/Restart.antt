-- ===== src/Ports/Allocate/Restart.antt =====
-- What an allocation persists, and that a restart gets the same ports back.
use greffer.Ports.Sticky.{Sidecar, load}
use greffer.Ports.Sticky.RoundTrip.{load-save}
use greffer.Ports.Allocate.{Port, is_l4, ok, Progress, Request, Node, Start, advance, allocate}
use greffer.Ports.Allocate.Assigned.{Assigned, done, skip, give}
use greffer.Ports.Allocate.Run.{allocate-Ran}
use greffer.Prelude.{
  ap, ◌∙◌, get-put_self, or_else, ℕ, String, ◌≡◌, refl, ap, ◌∙◌, true, ◌&&◌, Option, none, List, [],
  ◌∷◌, if◌then◌else◌, ◌==◌, nat_eq, string_eq, or_else, any, get, get_or, get-put, Unique,
  put-Unique,
}

-- The host of the last L4 entry with the name, or `old` where there is none.
unfoldable pub last_host : String → List Port → Option ℕ → Option ℕ
last_host name [] old = old
last_host name (p ∷ ps) old =
    last_host name ps (if is_l4 p && p.port_name == name then p.port_host else old)

Assigned-sticky :
    {r : Request} {i : ℕ} {ps ps' : List Port} {s s' : Progress} (name : String)
    → Assigned r i ps s ps' s'
    → get s'.new_sticky name ≡ last_host name ps' (get s.new_sticky name)
unfolding last_host advance
Assigned-sticky name done = refl
Assigned-sticky name (skip {p = p} other a) = rw other (Assigned-sticky name a)
Assigned-sticky {s = s} name (give {p = p} {ps' = ps'} port l4 e a) =
    rw l4 (
      Assigned-sticky name a ∙ ap (last_host name ps') (get-put s.new_sticky p.port_name name port))

Assigned-Unique :
    {r : Request} {i : ℕ} {ps ps' : List Port} {s s' : Progress}
    → Assigned r i ps s ps' s'
    → Unique s.new_sticky
    → Unique s'.new_sticky
unfolding advance
Assigned-Unique done u = u
Assigned-Unique (skip other a) u = Assigned-Unique a u
Assigned-Unique {s = s} (give {p = p} port l4 e a) u =
    Assigned-Unique a (put-Unique s.new_sticky p.port_name port u)

-- After a start that succeeded with an L4 entry, the sidecar gives back for every name the host
-- port of the last L4 entry with that name.
pub allocate_persists :
    (st : Start) (ports : List Port) (n : Node) (ports' : List Port) (n' : Node) (name : String)
    → any is_l4 ports ≡ true
    → allocate st ports n ≡ (ok ports', n')
    → get (load (get_or n'.sidecars st.instance_id Sidecar.unreadable)) name
      ≡ last_host name ports' none
unfolding get
allocate_persists st ports n ports' n' name l4 run =
    let a = allocate-Ran st ports n ports' n' l4 run in
    let (file, written, stored) = a.saved in
    let old = get_or n.sidecars st.instance_id Sidecar.unreadable in
    let found =
      ap (λ d. get_or d st.instance_id Sidecar.unreadable) stored
      ∙ ap (λ o. or_else o Sidecar.unreadable) (get-put_self n.sidecars st.instance_id file) in
    let back =
      load-save st.writable a.last.new_sticky old file name (Assigned-Unique a.assigned tt)
        written in
    ap (λ f. get (load f) name) found ∙ back ∙ Assigned-sticky name a.assigned
