-- ===== src/Locks/Exclusion.antt =====
-- Locks of one key exclude each other, whatever their clients do and in whichever order.
use go_redis_smq.Prelude.{
  ℕ, ◌+◌, ◌≡◌, sym, ◌∙◌, Bool, true, false, ◌&&◌, Option, none, some, List, [], ◌∷◌, ◌==◌, leb, ltb,
  if◌then◌else◌, arith, inl, inr, Bool-cases, Option-cases,
}
use go_redis_smq.Prelude.Text.{Text, text_eq, text_eq_refl}
use go_redis_smq.Locks.{
  Lock, Holding, get, try_acquire, owned, release, release_lock, refresh_tick, extend_lock,
}

-- An attempt of `Acquire`, a `Release`, and a tick of `refreshLoop`.
pub data Op : Type 0 where
  tries : Op
  releases : Op
  ticks : Op

-- The clients' locks, and until when each is granted, if it is, and for ever if it does not expire.
pub record World : Type 0 where
  pub holding : Option Holding
  pub locks : ℕ → Lock
  pub grants : ℕ → Option (Option ℕ)

unfoldable pub replace {ℓ} : {A : Type ℓ} → ℕ → A → (ℕ → A) → ℕ → A
replace i x f j = if i == j then x else f j

unfoldable pub live : ℕ → Option (Option ℕ) → Bool
live now none = false
live now (some none) = true
live now (some (some at')) = ltb now at'

abbrev pub until : ℕ → Lock → Option ℕ
until now l = if l.ttl == 0 then none else some (now + l.ttl)

unfoldable pub step : ℕ → ℕ → Op → World → World
unfolding try_acquire release refresh_tick replace
step now i tries w =
    let l = w.locks i in
    if l.acquired
    then w
    else (let (s, ok') = try_acquire now l w.holding in
        if ok'
        then record {
          holding = s;
          locks = replace i (record l { acquired = true }) w.locks;
          grants = replace i (some (until now l)) w.grants;
        }
        else w)
step now i releases w =
    let (l, s) = release now (w.locks i) w.holding in
    record { holding = s; locks = replace i l w.locks; grants = replace i none w.grants }
step now i ticks w =
    let l = w.locks i in
    record w {
      holding = refresh_tick now l w.holding;
      grants =
          if l.acquired && owned now l.owner w.holding
          then replace i (if l.ttl == 0 then none else some (some (now + l.ttl))) w.grants
          else w.grants;
    }

-- The steps of all clients, each at its time.
unfoldable pub run : List (ℕ × ℕ × Op) → World → World
unfolding step
run [] w = w
run ((now, i, op) ∷ ops) w = run ops (step now i op w)

abbrev pub Ordered : ℕ → List (ℕ × ℕ × Op) → Type 0
Ordered start [] = Unit
Ordered start ((now, i, op) ∷ ops) = (leb start now ≡ true) × Ordered now ops

-- What has expired stays so.
get_later :
    (t now : ℕ) (s : Option Holding) (v : Text)
    → leb t now ≡ true
    → get now s ≡ some v
    → get t s ≡ some v
unfolding get
get_later t now none v le h = ground (arith, h)
get_later t now (some s) v le h = elim (Option-cases s.expires_at) [
  | inl e ↦ ground (arith, e, h)
  | inr (at', e) ↦ ground (arith, e, h, le)
]

same_text : (s t : Text) → some s ≡ some t → text_eq s t ≡ true
same_text s t e = ground (arith, e, text_eq_refl s)

module _ (owners : ℕ → Text)
    (distinct : (i j : ℕ) → text_eq (owners i) (owners j) ≡ true → (i == j) ≡ true) where
  pub record IsHeld (start : ℕ) (w : World) : Type 0 where
    pub owned_by : (i : ℕ) → (w.locks i).owner ≡ owners i
    pub held :
        (i now : ℕ)
        → leb start now ≡ true
        → live now (w.grants i) ≡ true
        → get now w.holding ≡ some (owners i)

  later-IsHeld : (start now : ℕ) (w : World) → leb start now ≡ true → IsHeld start w → IsHeld now w
  later-IsHeld start now w le h = record {
    owned_by = h.owned_by;
    held = λ i later k live'. h.held i later (ground (arith, le, k)) live';
  }

  tries-IsHeld : (now i : ℕ) (w : World) → IsHeld now w → IsHeld now (step now i tries w)
  unfolding step try_acquire replace get live
  tries-IsHeld now i w h = elim (Bool-cases (w.locks i).acquired) [
    | inl has ↦ rw has h
    | inr has_not ↦ elim (Option-cases (get now w.holding)) [
      | inr (v, e) ↦ rw (has_not, try_acquire, e) h
      | inl free ↦
          rw (has_not, try_acquire, free)
            (record {
              owned_by = λ j. ground (arith, h.owned_by i, h.owned_by j);
              held = λ j later k live'. elim (Bool-cases (i == j)) [
                | inl same ↦ ground (arith, same, h.owned_by i, live')
                | inr other ↦
                    let live'' : live later (w.grants j) ≡ true = ground (arith, other, live') in
                    absurd (
                      ground (
                        arith,
                        free,
                        get_later now later w.holding (owners j) k (h.held j later k live''),
                      ))
              ];
            })
    ]
  ]

  releases-IsHeld : (now i : ℕ) (w : World) → IsHeld now w → IsHeld now (step now i releases w)
  unfolding step release release_lock owned replace get live
  releases-IsHeld now i w h = record {
    owned_by = λ j. ground (arith, h.owned_by i, h.owned_by j);
    held = λ j later k live'. elim (Bool-cases (i == j)) [
      | inl same ↦ absurd (ground (arith, same, live'))
      | inr other ↦
          let live'' : live later (w.grants j) ≡ true = ground (arith, other, live') in
          let is_held = h.held j later k live'' in
          ground (
            arith,
            other,
            h.owned_by i,
            distinct j i,
            is_held,
            get_later now later w.holding (owners j) k is_held,
          )
    ];
  }

  ticks-IsHeld : (now i : ℕ) (w : World) → IsHeld now w → IsHeld now (step now i ticks w)
  unfolding step refresh_tick extend_lock owned replace get live
  ticks-IsHeld now i w h = record {
    owned_by = h.owned_by;
    held = λ j later k live'. elim (Bool-cases (i == j)) [
      | inl same ↦
          let l = w.locks i in
          elim (Bool-cases (l.acquired && owned now l.owner w.holding)) [
            | inl extended ↦ ground (arith, same, extended, live', h.owned_by i)
            | inr kept ↦
                let live'' : live later (w.grants j) ≡ true = ground (arith, kept, live') in
                ground (arith, kept, h.held j later k live'')
          ]
      | inr other ↦
          let live'' : live later (w.grants j) ≡ true = ground (arith, other, live') in
          let is_held = h.held j later k live'' in
          ground (
            arith,
            other,
            h.owned_by i,
            distinct j i,
            is_held,
            get_later now later w.holding (owners j) k is_held,
          )
    ];
  }

  step-IsHeld : (now i : ℕ) (op : Op) (w : World) → IsHeld now w → IsHeld now (step now i op w)
  step-IsHeld now i tries w h = tries-IsHeld now i w h
  step-IsHeld now i releases w h = releases-IsHeld now i w h
  step-IsHeld now i ticks w h = ticks-IsHeld now i w h

  abbrev pub last_time : ℕ → List (ℕ × ℕ × Op) → ℕ
  last_time start [] = start
  last_time start ((now, i, op) ∷ ops) = last_time now ops

  run-IsHeld :
      (start : ℕ) (ops : List (ℕ × ℕ × Op)) (w : World)
      → Ordered start ops
      → IsHeld start w
      → IsHeld (last_time start ops) (run ops w)
  unfolding run
  run-IsHeld start [] w o h = h
  run-IsHeld start ((now, i, op) ∷ ops) w (le, o) h =
      run-IsHeld now ops (step now i op w) o
        (step-IsHeld now i op w (later-IsHeld start now w le h))

  -- Two clients are never both within the time for which they were granted the lock, after any
  -- sequence of attempts, releases and refreshes whose times do not go back, if no two clients have the
  -- same owner name and nothing was granted at first but what the key says; and who is within it is
  -- the owner that the key has.
  pub run_exclusive :
      (start : ℕ) (ops : List (ℕ × ℕ × Op)) (w : World)
      → Ordered start ops
      → IsHeld start w
      → let w' = run ops w in
        (i j now : ℕ)
        → leb (last_time start ops) now ≡ true
        → live now (w'.grants i) ≡ true
        → (get now w'.holding ≡ some (owners i)) × (live now (w'.grants j) ≡ true → (i == j) ≡ true)
  run_exclusive start ops w o h i j now le live_i =
      let held = run-IsHeld start ops w o h in
      let mine = held.held i now le live_i in
      (
        mine,
        (λ live_j.
            distinct i j (same_text (owners i) (owners j) (sym mine ∙ held.held j now le live_j))),
      )
