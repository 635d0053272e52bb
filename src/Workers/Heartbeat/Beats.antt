-- ===== src/Workers/Heartbeat/Beats.antt =====
-- Which beats are sent.
use greffer.Workers.Heartbeat.{
  Response, status_code, Heart, Turn, wake, accepted, is_rejection, beat, turn, heartbeat_worker,
}
use greffer.Prelude.{
  ℕ, zero, suc, ◌≡◌, refl, ap, ◌∙◌, Bool, true, false, List, [], ◌∷◌, if◌then◌else◌, nat_eq,
  string_eq, every,
}

-- The numbers from `n` down to one.
unfoldable pub count_down : ℕ → List ℕ
count_down zero = []
count_down (suc n) = suc n ∷ count_down n

-- The beats are numbered without a gap.
abbrev IsNumbered : Heart → Type 0
IsNumbered h = h.sent ≡ count_down h.seq

if-IsNumbered :
    (b : Bool) (x y : Heart) → IsNumbered x → IsNumbered y → IsNumbered (if b then x else y)
if-IsNumbered true x y e e' = e
if-IsNumbered false x y e e' = e'

beat-IsNumbered : (r : Response) (h : Heart) → IsNumbered h → IsNumbered (beat r h)
unfolding beat count_down
beat-IsNumbered r h e =
    let next : Heart = record h { seq = suc h.seq; sent = suc h.seq ∷ h.sent } in
    let more = ap (λ ns. suc h.seq ∷ ns) e in
    if-IsNumbered (is_rejection r) (record next { registered = false; reregister_requested = true })
      next more more

turn-IsNumbered : (t : Turn) (h : Heart) → IsNumbered h → IsNumbered (turn t h)
unfolding turn
turn-IsNumbered (wake r) h e = if-IsNumbered h.registered (beat r h) h (beat-IsNumbered r h e) e
turn-IsNumbered accepted h e = e

worker-IsNumbered : (ts : List Turn) (h : Heart) → IsNumbered h → IsNumbered (heartbeat_worker ts h)
unfolding heartbeat_worker
worker-IsNumbered [] h e = e
worker-IsNumbered (t ∷ ts) h e = worker-IsNumbered ts (turn t h) (turn-IsNumbered t h e)

abbrev pub first_heart : Heart
first_heart = record { seq = 0; registered = false; reregister_requested = false; sent = [] }

-- Whatever the answers and however often the node registers again, the beats of a process carry
-- the numbers one, two, three and so on, without a gap or a repetition.
pub heartbeat_numbers :
    (ts : List Turn)
    → (heartbeat_worker ts first_heart).sent ≡ count_down (heartbeat_worker ts first_heart).seq
unfolding count_down
heartbeat_numbers ts = worker-IsNumbered ts first_heart refl

-- Only turns of the loop, no registration.
abbrev pub all_wakes : List Turn → Bool
all_wakes ts = every (λ t. elim t [ wake _ ↦ true | accepted ↦ false ]) ts

waiting :
    (ts : List Turn) (h : Heart)
    → h.registered ≡ false
    → all_wakes ts ≡ true
    → heartbeat_worker ts h ≡ h
unfolding heartbeat_worker every turn
waiting [] h off quiet = refl
waiting (wake r ∷ ts) h off quiet = simp off (waiting ts h off quiet)
waiting (accepted ∷ ts) h off quiet = cc quiet

-- A beat that is answered with 403 is the last one until a registration completes, and asks for
-- one.
pub heartbeat_pauses :
    (ts : List Turn) (h : Heart)
    → h.registered ≡ true
    → all_wakes ts ≡ true
    → ((heartbeat_worker (wake (status_code 403) ∷ ts) h).sent ≡ suc h.seq ∷ h.sent)
      × ((heartbeat_worker (wake (status_code 403) ∷ ts) h).reregister_requested ≡ true)
unfolding heartbeat_worker turn beat is_rejection
heartbeat_pauses ts h on quiet =
    let paused : Heart = record {
      seq = suc h.seq;
      registered = false;
      reregister_requested = true;
      sent = suc h.seq ∷ h.sent;
    } in
    let still =
      ap (λ b. heartbeat_worker ts (if b then paused else h)) on ∙ waiting ts paused refl quiet in
    (ap (λ (x : Heart). x.sent) still, ap (λ (x : Heart). x.reregister_requested) still)
