-- ===== src/Client/Story/Accept.antt =====
-- Which ids a client accepts, and what it keeps of a request.
use qwen3_tts_bridge_cpp.Common.{
  ℕ, ◌≤◌, ◌<◌, ◌≡◌, refl, ◌∙◌, ◌≢◌, ◌⊎◌, inl, inr, Bool, true, false, not, none, List, [], ◌∷◌,
  arith, ◌==◌, if◌then◌else◌, All,
}
use qwen3_tts_bridge_cpp.Control.Messages.{ControlMessage}
use qwen3_tts_bridge_cpp.Client.Types.{
  QwenTtsClient, OutboundCommand, ActiveRequest, find, erase, emplace,
}
use qwen3_tts_bridge_cpp.Client.Deliver.{is_none}
use qwen3_tts_bridge_cpp.Client.Calls.{
  allocate_request_id_locked, enqueue_outbound_locked, is_running, accept_request,
}
use qwen3_tts_bridge_cpp.Client.Story.Handlers.{AllSet, IsEntry, IsOrderly}

-- The id is not below `next`, the id that comes next, or behind the last one.
pub record IsNew (next id : ℕ) : Type 0 where
  pub nonzero : id ≢ 0
  pub open_ids : next ≢ 0
  pub reached : next ≤ id

abbrev pub IsUsed : ℕ → ℕ → Type 0
IsUsed next id = (next ≡ 0) ⊎ (id < next)

-- Zero, which closes the ids, comes behind every other `next`.
abbrev pub IsLater : ℕ → ℕ → Type 0
IsLater next next' = (next' ≡ 0) ⊎ ((next ≢ 0) × (next ≤ next'))

pub IsNew-IsUsed : (next id : ℕ) → IsNew next id → IsUsed next id → ⊥
IsNew-IsUsed next id n u = ground (arith, n.open_ids, n.reached, u)

pub IsNew-later : (next next' id : ℕ) → IsLater next next' → IsNew next' id → IsNew next id
IsNew-later next next' id l n = record {
  nonzero = n.nonzero;
  open_ids = ground (arith, l, n.open_ids);
  reached = ground (arith, l, n.open_ids, n.reached);
}

pub IsUsed-later : (next next' id : ℕ) → IsLater next next' → IsUsed next id → IsUsed next' id
IsUsed-later next next' id l u = ground (arith, l, u)

pub IsLater-refl : (next : ℕ) → IsLater next next
IsLater-refl next = ground arith

pub IsLater-trans : (a b c : ℕ) → IsLater a b → IsLater b c → IsLater a c
IsLater-trans a b c h i = ground (arith, h, i)

later-All :
    (next next' : ℕ) (m : List (ℕ × ActiveRequest))
    → IsLater next next'
    → All (IsEntry next) m
    → All (IsEntry next') m
later-All next next' [] l h = h
later-All next next' (x ∷ m) l h = (
  record {
    nonzero = h.0.nonzero;
    earlier = IsUsed-later next next' x.0 l h.0.earlier;
    callbacks = h.0.callbacks;
    text = h.0.text;
    bounded = h.0.bounded;
  },
  later-All next next' m l h.1,
)

-- A new id is none of the map's.
pub new_lem :
    (next k : ℕ) (m : List (ℕ × ActiveRequest))
    → IsNew next k
    → All (IsEntry next) m
    → find k m ≡ none
new_lem next k [] n h = refl
new_lem next k (x ∷ m) n h =
    ground (arith, n.open_ids, n.reached, h.0.earlier, new_lem next k m n h.1)

module _ {D : Type 0} where
  -- How a request ends that a client may accept: refused, or under a new id.
  pub record Accepts (c : QwenTtsClient D) (r : ActiveRequest) (o : QwenTtsClient D × ℕ)
      : Type 0 where
    pub later : IsLater c.next_request_id o.0.next_request_id
    pub outcome :
        ((o.1 ≡ 0) × (o.0.active_requests ≡ c.active_requests))
        ⊎ (IsNew c.next_request_id o.1
            × IsUsed o.0.next_request_id o.1
            × (o.0.active_requests ≡ (o.1, r) ∷ c.active_requests))

  allocate-IsLater :
      (c : QwenTtsClient D) (id : ℕ)
      → IsLater c.next_request_id (allocate_request_id_locked c id).0.next_request_id
        × ((allocate_request_id_locked c id).0.active_requests ≡ c.active_requests)
  unfolding allocate_request_id_locked
  allocate-IsLater c id = ground arith

  allocate_cases :
      (c : QwenTtsClient D) (id : ℕ)
      → ((allocate_request_id_locked c id).1 ≡ 0)
        ⊎ (((allocate_request_id_locked c id).1 ≢ 0)
            × (c.next_request_id ≢ 0)
            × (c.next_request_id ≤ (allocate_request_id_locked c id).1)
            × IsUsed
                (allocate_request_id_locked c id).0.next_request_id
                (allocate_request_id_locked c id).1)
  unfolding allocate_request_id_locked
  allocate_cases c id = ground arith

  enqueue_lem :
      (c : QwenTtsClient D) (command : OutboundCommand D)
      → ((enqueue_outbound_locked c command).0.active_requests ≡ c.active_requests)
        × ((enqueue_outbound_locked c command).0.next_request_id ≡ c.next_request_id)
  unfolding enqueue_outbound_locked
  enqueue_lem c command = ground arith

  pub refused-Accepts : (c : QwenTtsClient D) (r : ActiveRequest) → Accepts c r (c, 0)
  refused-Accepts c r = record {
    later = IsLater-refl c.next_request_id;
    outcome = inl (refl, refl);
  }

  pub either-Accepts :
      (b : Bool) (c : QwenTtsClient D) (r : ActiveRequest) (o o' : QwenTtsClient D × ℕ)
      → Accepts c r o
      → Accepts c r o'
      → Accepts c r (if b then o else o')
  either-Accepts true c r o o' a a' = a
  either-Accepts false c r o o' a a' = a'

  -- The entry that is made for an id, and is taken back if the command does not fit.
  listed-Accepts :
      (c c' : QwenTtsClient D) (id : ℕ) (r : ActiveRequest) (message : ControlMessage D)
      → IsLater c.next_request_id c'.next_request_id
      → c'.active_requests ≡ c.active_requests
      → IsNew c.next_request_id id
      → IsUsed c'.next_request_id id
      → IsOrderly c
      → Accepts c r (
          let listed = record c' { active_requests = emplace id r c'.active_requests } in
          let tried =
            enqueue_outbound_locked listed
              (record { request_id = id; message = message; queued_bytes = 0 }) in
          if not tried.1
          then (record tried.0 { active_requests = erase id tried.0.active_requests }, 0)
          else (tried.0, id))
  listed-Accepts c c' id r message l same new used v =
      let fresh = new_lem c.next_request_id id c.active_requests new v.entries in
      let listed : QwenTtsClient D = record c' {
        active_requests = emplace id r c'.active_requests;
      } in
      let command : OutboundCommand D = record {
        request_id = id;
        message = message;
        queued_bytes = 0;
      } in
      let added : listed.active_requests ≡ (id, r) ∷ c.active_requests =
        ground (arith, same, fresh) in
      let kept = enqueue_lem listed command in
      either-Accepts (not (enqueue_outbound_locked listed command).1) c r _ _
        (record { later = rw kept.1 l; outcome = inl (refl, ground (arith, kept.0, added)) })
        (record { later = rw kept.1 l; outcome = inr (new, rw kept.1 used, kept.0 ∙ added) })

  pub accept-Accepts :
      (c : QwenTtsClient D) (id : ℕ) (r : ActiveRequest) (message : ControlMessage D)
      → IsOrderly c
      → Accepts c r (accept_request c id r message)
  unfolding accept_request
  accept-Accepts c id r message v =
      let a = allocate_request_id_locked c id in
      let (l, same) = allocate-IsLater c id in
      either-Accepts (not (is_running c)) c r _ _ (refused-Accepts c r)
        (elim (allocate_cases c id) [
          | inl z ↦ rw z (record { later = l; outcome = inl (refl, same) })
          | inr (nonzero, open_ids, reached, used) ↦
              let new : IsNew c.next_request_id a.1 = record {
                nonzero = nonzero;
                open_ids = open_ids;
                reached = reached;
              } in
              let there : (a.1 == 0) ≡ false = ground (arith, nonzero) in
              rw there (listed-Accepts c a.0 a.1 r message l same new used v)
        ])

  -- The map that is left is orderly.
  pub Accepts-IsOrderly :
      (c : QwenTtsClient D) (r : ActiveRequest) (o : QwenTtsClient D × ℕ)
      → AllSet r.callbacks
      → is_none r.prepared_text ≡ false
      → r.next_sample ≡ 0
      → IsOrderly c
      → Accepts c r o
      → IsOrderly o.0
  Accepts-IsOrderly c r o set text first v a =
      let old = later-All _ o.0.next_request_id c.active_requests a.later v.entries in
      elim a.outcome [
        | inl (z, same) ↦ record { unique = rw same v.unique; entries = rw same old }
        | inr (new, used, added) ↦ record {
          unique =
              rw added (new_lem c.next_request_id o.1 c.active_requests new v.entries, v.unique);
          entries = rw added (
            record {
              nonzero = new.nonzero;
              earlier = used;
              callbacks = set;
              text = text;
              bounded = ground (arith, first);
            },
            old,
          );
        }
      ]
