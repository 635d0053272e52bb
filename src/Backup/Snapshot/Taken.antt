-- ===== src/Backup/Snapshot/Taken.antt =====
-- What the parts of a hot backup have taken when they end with a value.
use greffer.Backup.Snapshot.Gated.{
  OnDone, chain-OnDone, answered, HasDump, HasData, Gated, gated, data_kept, the_one, anything,
}
use greffer.Backup.{done, Instance}
use greffer.Backup.Mounts.{join_text}
use greffer.Backup.Job.{is_empty}
use greffer.Backup.Artifacts.{saw, snapped, dumped, Node, Backing, Ended, act, dump_and_backup}
use greffer.Backup.Snapshot.{db_volumes, find_hooks, snap_data, dump_all}
use greffer.Prelude.{
  ℕ, String, ◌≡◌, refl, ap, ◌∙◌, ◌⊎◌, inl, inr, true, false, ◌||◌, some, List, [], ◌∷◌, arith, ltb,
  ◌!=◌, nat_eq, string_eq, length, Dict, get, get-put_self, if_ind,
}

module _ (node : Node) (inst : Instance) (classes : Dict String String) where
  pub snap_data-HasData :
      (mounts : List String) (s : Backing)
      → OnDone (λ taken t. HasData mounts taken.0 t.acts) (snap_data node inst classes mounts s)
  unfolding snap_data act get
  snap_data-HasData [] s = inl refl
  snap_data-HasData (m ∷ mounts) s =
      let answer = node.snaps (m ∷ mounts) s.acts in
      chain-OnDone (λ res t. (answer ≡ done res) × (t ≡ act (snapped (m ∷ mounts) answer) s)) _
        (answer, act (snapped (m ∷ mounts) answer) s) _
        (answered answer (act (snapped (m ∷ mounts) answer) s))
        λ res t got.
          if_ind
            (λ (e : Ended (Dict String String × ℕ)).
              OnDone (λ taken u. HasData (m ∷ mounts) taken.0 u.acts) e)
            (res.code != 0) _ _ (λ _. tt)
            (λ ok.
              inr (res, rw got.1 (inl (ap (snapped (m ∷ mounts)) got.0)), ground (arith, ok), refl))

  abbrev pub Artifacts : List String → String → Dict String String × ℕ → Backing → Type 0
  Artifacts mounts service artifacts t =
      HasData mounts artifacts.0 t.acts × HasDump service artifacts.0 t.acts

  -- The dump of the one hook.
  pub dump_all-HasDump :
      (mounts : List String) (service : String) (taken : Dict String String × ℕ) (s : Backing)
      → HasData mounts taken.0 s.acts
      → OnDone (Artifacts mounts service) (dump_all node inst classes (service ∷ []) taken s)
  unfolding dump_all act
  dump_all-HasDump mounts service taken s k =
      let answer = node.dumps service s.acts in
      chain-OnDone (λ raw t. (answer ≡ done raw) × (t ≡ act (dumped service answer) s))
        (Artifacts mounts service) (answer, act (dumped service answer) s) _
        (answered answer (act (dumped service answer) s))
        λ raw t got.
          chain-OnDone (Gated raw t) (Artifacts mounts service) (dump_and_backup raw, t) _
            (gated raw t)
            λ res u passed.
              rw (passed.0, got.1)
                (
                  data_kept mounts service res.0 (dumped service answer) taken.0 s.acts k,
                  record {
                    raw = raw;
                    did = inl (ap (dumped service) got.0);
                    dump_ok = passed.2;
                    restic_ok = passed.3;
                    nonempty = passed.4;
                    entry = get-put_self taken.0 (join_text "db:" service) res.0 ∙ ap some passed.1;
                  },
                )

  -- No database, or exactly one with exactly one hook.
  abbrev pub IsMatched : List String → Type 0
  IsMatched hooks =
      ((is_empty (db_volumes node inst classes) ≡ true) × (hooks ≡ []))
      ⊎ ((ltb 1 (length (db_volumes node inst classes)) ≡ false)
          × ((service : String) × (hooks ≡ service ∷ [])))

  pub find_hooks-IsMatched :
      (s : Backing) → OnDone (λ hooks t. IsMatched hooks) (find_hooks node inst classes s)
  unfolding find_hooks
  find_hooks-IsMatched s =
      if_ind (λ (e : Ended (List String)). OnDone (λ hooks t. IsMatched hooks) e)
        (is_empty (db_volumes node inst classes)) _ _ (λ none_there. inl (none_there, refl))
        (λ _.
          chain-OnDone (λ hooks t. Unit) (λ hooks t. IsMatched hooks)
            (node.dump_hooks s.acts, act saw s) _ (anything (node.dump_hooks s.acts) (act saw s))
            λ hooks t _.
              if_ind (λ (e : Ended (List String)). OnDone (λ hooks t. IsMatched hooks) e)
                (ltb 1 (length (db_volumes node inst classes)) || ltb 1 (length hooks)) _ _
                (λ _. tt)
                (λ few.
                  if_ind (λ (e : Ended (List String)). OnDone (λ hooks t. IsMatched hooks) e)
                    (is_empty hooks) _ _ (λ _. tt)
                    (λ full. inr (ground (arith, few), the_one hooks (ground (arith, few)) full))))
