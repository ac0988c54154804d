-- ===== src/Producer/Plan.antt =====
-- Where a message is sent to, as one list, and that `Produce` does just that.
use go_redis_smq.Prelude.{
  ℕ, ◌≡◌, refl, sym, ap, ◌∙◌, Option, List, [], ◌∷◌, ◌++◌, map, Result, ok, err, arith, inl, inr,
  Result-cases,
}
use go_redis_smq.Prelude.Text.{Text}
use go_redis_smq.Keys.{Queue}
use go_redis_smq.Producer.Resolver.{Targets}
use go_redis_smq.Producer.{
  ProducibleMessage, World, Error, dispatch_to, produce_to_groups, produce_to_queue,
  produce_to_queues, targets_of, to_targets,
}

-- Each group of a queue that has some, or the queue itself.
abbrev pub destinations : Option Targets → Queue → List (Queue × Text)
destinations resolver q = elim (targets_of resolver q) [
  | [] ↦ (q, []) ∷ []
  | g ∷ groups ↦ map (λ g. (q, g)) (g ∷ groups)
]

unfoldable pub plan : Option Targets → List Queue → List (Queue × Text)
plan resolver [] = []
plan resolver (q ∷ qs) = destinations resolver q ++ plan resolver qs

-- One message for each destination, in their order, up to the first that fails.
module _ (send : Queue × Text → World → World × Result Error ℕ) where
  unfoldable pub send_all : List (Queue × Text) → World → World × Result Error (List ℕ)
  send_all [] w = (w, ok [])
  send_all (t ∷ ts) w =
      let (w', result) = send t w in
      let (w'', rest) = send_all ts w' in
      elim result [
        | err e ↦ (w', err e)
        | ok id ↦ (w'', elim rest [ err e ↦ err e | ok ids ↦ ok (id ∷ ids) ])
      ]

  -- The second list is tried when the first has not failed.
  abbrev pub then_all :
      List (Queue × Text) → World × Result Error (List ℕ) → World × Result Error (List ℕ)
  then_all us (w, result) =
      let (w', rest) = send_all us w in
      elim result [
        | err e ↦ (w, err e)
        | ok ids ↦ (w', elim rest [ err e ↦ err e | ok more ↦ ok (ids ++ more) ])
      ]

  abbrev prepend : ℕ → World × Result Error (List ℕ) → World × Result Error (List ℕ)
  prepend id (w, result) = (w, elim result [ err e ↦ err e | ok ids ↦ ok (id ∷ ids) ])

  prepend-then_all :
      (us : List (Queue × Text)) (id : ℕ) (w : World) (result : Result Error (List ℕ))
      → prepend id (then_all us (w, result)) ≡ then_all us (prepend id (w, result))
  prepend-then_all us id w (err e) = refl
  prepend-then_all us id w (ok ids) = elim (Result-cases (send_all us w).1) [
    | inl (more, e) ↦ rw e refl
    | inr (x, e) ↦ rw e refl
  ]

  nothing-then_all :
      (r : World × Result Error (List ℕ))
      → r ≡ (r.0, elim r.1 as (λ _. Result Error (List ℕ)) [ err e ↦ err e | ok more ↦ ok more ])
  nothing-then_all (w, err e) = refl
  nothing-then_all (w, ok ids) = refl

  -- What is made of the first message and the others.
  abbrev sent :
      Result Error ℕ → World → World × Result Error (List ℕ) → World × Result Error (List ℕ)
  sent (err e) w r = (w, err e)
  sent (ok id) w r = prepend id r

  sent-then_all :
      (us : List (Queue × Text)) (result : Result Error ℕ) (w : World)
      (r : World × Result Error (List ℕ))
      → sent result w (then_all us r) ≡ then_all us (sent result w r)
  sent-then_all us (err e) w r = refl
  sent-then_all us (ok id) w r = prepend-then_all us id r.0 r.1

  send_all_cons :
      (t : Queue × Text) (ts : List (Queue × Text)) (w : World)
      → send_all (t ∷ ts) w ≡ sent (send t w).1 (send t w).0 (send_all ts (send t w).0)
  unfolding send_all
  send_all_cons t ts w = elim (Result-cases (send t w).1) [
    | inl (id, e) ↦ rw (e, send_all) refl
    | inr (x, e) ↦ rw (e, send_all) refl
  ]

  pub send_all-append :
      (ts us : List (Queue × Text)) (w : World)
      → send_all (ts ++ us) w ≡ then_all us (send_all ts w)
  unfolding send_all
  send_all-append [] us w = nothing-then_all (send_all us w)
  send_all-append (t ∷ ts) us w =
      let (w', result) = send t w in
      send_all_cons t (ts ++ us) w
      ∙ ap (sent result w') (send_all-append ts us w')
      ∙ sent-then_all us result w' (send_all ts w')
      ∙ ap (then_all us) (sym (send_all_cons t ts w))

-- The loop over the queues, when the rest of it sends the rest of the plan.
abbrev after :
    (World → World × Result Error (List ℕ))
    → World × Result Error (List ℕ)
    → World × Result Error (List ℕ)
after rest (w, result) =
    let (w', more) = rest w in
    elim result [
      | err e ↦ (w, err e)
      | ok ids ↦ (w', elim more [ err e ↦ err e | ok more ↦ ok (ids ++ more) ])
    ]

after_queue :
    (send : Queue × Text → World → World × Result Error ℕ) (resolver : Option Targets)
    (qs : List Queue) (r : World × Result Error (List ℕ))
    (rest : World → World × Result Error (List ℕ))
    → ((w : World) → rest w ≡ send_all send (plan resolver qs) w)
    → after rest r ≡ then_all send (plan resolver qs) r
after_queue send resolver qs (w, err e) rest h = refl
after_queue send resolver qs (w, ok ids) rest h =
    ap
      (λ x. (
        x.0,
        elim x.1 as (λ _. Result Error (List ℕ)) [ err e ↦ err e | ok more ↦ ok (ids ++ more) ],
      ))
      (h w)

module _ (next_tick : Text → ℕ → Option ℕ) (new_id : ℕ → ℕ)
    (encode : ProducibleMessage → Queue → Text → Text) where
  groups-send_all :
      (now : ℕ) (m : ProducibleMessage) (q : Queue) (groups : List Text) (w : World)
      → produce_to_groups next_tick new_id encode now m q groups w
        ≡ send_all (dispatch_to next_tick new_id encode now m) (map (λ g. (q, g)) groups) w
  unfolding produce_to_groups send_all
  groups-send_all now m q [] w = refl
  groups-send_all now m q (g ∷ groups) w =
      ground (
        arith,
        groups-send_all now m q groups (dispatch_to next_tick new_id encode now m (q, g) w).0,
      )

  targets-send_all :
      (now : ℕ) (m : ProducibleMessage) (q : Queue) (targets : List Text) (w : World)
      → to_targets next_tick new_id encode now m q targets w
        ≡ send_all
            (dispatch_to next_tick new_id encode now m)
            (elim targets [ [] ↦ (q, []) ∷ [] | g ∷ groups ↦ map (λ g. (q, g)) (g ∷ groups) ])
            w
  unfolding to_targets send_all
  targets-send_all now m q [] w = ground arith
  targets-send_all now m q (g ∷ groups) w = groups-send_all now m q (g ∷ groups) w

  -- Producing to queues sends one message to each consumer group of a queue that the resolver has groups
  -- of, and one to each other queue, in this order, until one fails: then the earlier ones are sent, and
  -- the error is returned; else all ids are, in this order.
  pub produce_to_queues-send_all :
      (now : ℕ) (m : ProducibleMessage) (resolver : Option Targets) (qs : List Queue) (w : World)
      → produce_to_queues next_tick new_id encode now m resolver qs w
        ≡ send_all (dispatch_to next_tick new_id encode now m) (plan resolver qs) w
  unfolding produce_to_queues produce_to_queue send_all plan
  produce_to_queues-send_all now m resolver [] w = refl
  produce_to_queues-send_all now m resolver (q ∷ qs) w =
      let send = dispatch_to next_tick new_id encode now m in
      let one = targets-send_all now m q (targets_of resolver q) w in
      let later = λ (w' : World). produce_to_queues-send_all now m resolver qs w' in
      after_queue send resolver qs
        (to_targets next_tick new_id encode now m q (targets_of resolver q) w)
        (produce_to_queues next_tick new_id encode now m resolver qs) later
      ∙ ap (then_all send (plan resolver qs)) one
      ∙ sym (send_all-append send (destinations resolver q) (plan resolver qs) w)
