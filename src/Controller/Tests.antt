-- ===== src/Controller/Tests.antt =====
-- Two children of one instance, of which one ends, and one that gets no thread.
use greffer.Controller.{compose_inflight, Happening, untracked, tracked, exited, tracked_after}
use greffer.Controller.Inflight.{compose_inflight-waiting}
use greffer.Prelude.{◌≡◌, true, false, List, [], ◌∷◌, nat_eq, string_eq, contains}

abbrev happenings : List Happening
happenings =
    tracked "a" true ∷ tracked "a" true ∷ tracked "a" false ∷ exited "a" ∷ untracked "b" ∷ []

compose_inflight-waiting_example :
    compose_inflight "a"
      (tracked_after happenings (record { inflight = []; waiting = [] })).inflight
    ≡ contains "a" (tracked_after happenings (record { inflight = []; waiting = [] })).waiting
compose_inflight-waiting_example = compose_inflight-waiting happenings "a"
