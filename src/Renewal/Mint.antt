-- ===== src/Renewal/Mint.antt =====
-- `_mint` of app/workers/cert_renewal.py.
use greffer.Renewal.Serial.{occurs}
use greffer.Prelude.{String, ◌||◌, Option, none, some, if◌then◌else◌, ◌==◌, ◌!=◌, nat_eq, string_eq}
use greffer.Renewal.{
  Http, Answered, http, lost, mint_sent, World, Config, Books, Raised, returned,
  renewal_unavailable, node_rate_limited, node_auth_lost, crashed, note, note_failure,
}

-- `res.json()` of an answer with status 200.
unfoldable pub parsed : Option (Option String) → Raised (Option (Option String))
parsed none = crashed
parsed (some serial) = returned (some serial)

-- The branches on a response: a certificate's serial, none where there is nothing to do, or an
-- exception that is about the whole node.
unfoldable pub on_minted :
    World → Config → String → Http → Books → Books × Raised (Option (Option String))
unfolding note_failure occurs parsed
on_minted w c id res s =
    if res.status == 404
    then (if occurs "not_found" res.text then (s, returned none) else (s, renewal_unavailable))
    else if res.status == 429
    then (if occurs "rate_limited" res.text
        then (s, node_rate_limited)
        else (note_failure w c id s, returned none))
    else if res.status == 401 || res.status == 403
    then (s, node_auth_lost)
    else if res.status != 200
    then (note_failure w c id s, returned none)
    else (s, parsed res.json)

unfoldable pub on_mint_answer :
    World → Config → String → Answered → Books → Books × Raised (Option (Option String))
unfolding on_minted
on_mint_answer w c id lost s = (s, crashed)
on_mint_answer w c id (http res) s = on_minted w c id res s

unfoldable pub mint : World → Config → String → Books → Books × Raised (Option (Option String))
unfolding on_mint_answer note
mint w c id s =
    let answer = w.mint_answer id s.past in
    on_mint_answer w c id answer (note (mint_sent id answer) s)
