-- ===== src/LeaseRenewer/Thread.antt =====
-- The lease renewal of a client: when the thread serves it, and when no thread does.
use libhdfs.Prelude.{
  ℕ, ◌<◌, ◌≡◌, ◌≢◌, refl, ◌∙◌, ap, subst, arith, if◌then◌else◌, Bool, true, false, List, [], ◌∷◌,
  inl, inr, Bool-cases, ◌==◌,
}
use libhdfs.LeaseRenewer.{
  FileSystem, Phase, idle, waiting, leaving, LeaseRenewer, Renewal, returned, threw, has_key,
  is_empty, update, register_opened_output_stream, renew_lease, after_renewal, start_renew,
  renew_all, round, leave,
}
use libhdfs.LeaseRenewer.Steps.{Reach, later, start, exit, is_idle, stop-idle}

has_key_self : (c : ℕ) (ds : List ℕ) → has_key c (if has_key c ds then ds else (c ∷ ds)) ≡ true
unfolding has_key
has_key_self c ds = elim (Bool-cases (has_key c ds)) [
  | inl t ↦ rw (t, t) refl
  | inr t ↦ rw t (let s : (c == c) ≡ true = ground arith in rw s refl)
]

is_empty-has_key : (c : ℕ) (ds : List ℕ) → has_key c ds ≡ true → is_empty ds ≡ false
unfolding has_key is_empty
is_empty-has_key c [] e = ground arith
is_empty-has_key c (d ∷ ds) e = refl

if_true : (b : Bool) {x : Bool} → x ≡ true → (if b then true else x) ≡ true
if_true true e = refl
if_true false e = e

registered : (c : ℕ) (s : LeaseRenewer) → has_key c (start_renew c s).maps ≡ true
unfolding start_renew
registered c s = has_key_self c s.maps

opened : (c : ℕ) (s : LeaseRenewer) → 0 < ((start_renew c s).filesystems c).opened_output_stream
unfolding start_renew update register_opened_output_stream
opened c s = let t : (c == c) ≡ true = ground arith in rw t (omega arith)

start_renew-waiting :
    (c : ℕ) (s : LeaseRenewer)
    → s.stop ≡ is_idle s.worker
    → s.worker ≢ leaving
    → (start_renew c s).worker ≡ waiting
unfolding start_renew
start_renew-waiting c s e n = of_phase s.worker refl
  where
    full : is_empty (if has_key c s.maps then s.maps else (c ∷ s.maps)) ≡ false
    full =
        is_empty-has_key c (if has_key c s.maps then s.maps else (c ∷ s.maps))
          (has_key_self c s.maps)

    of_phase : (p : Phase) → s.worker ≡ p → (start_renew c s).worker ≡ waiting
    of_phase idle w = let stopped : s.stop ≡ true = e ∙ ap is_idle w in rw (stopped, full) refl
    of_phase waiting w = let running : s.stop ≡ false = e ∙ ap is_idle w in rw running w
    of_phase leaving w = absurd (n w)

-- StartRenew of a client, when the thread is not on its way out, leaves the client in the map and
-- the thread running.
pub start_renew-serves :
    (filesystems : ℕ → FileSystem) (c : ℕ) (s : LeaseRenewer)
    → Reach filesystems s
    → s.worker ≢ leaving
    → (has_key c (start_renew c s).maps ≡ true) × ((start_renew c s).worker ≡ waiting)
start_renew-serves filesystems c s r n =
    (registered c s, start_renew-waiting c s (stop-idle filesystems s r) n)

-- The two ways in which an entry outlasts a round.
own_entry :
    (fs : FileSystem) (c : ℕ) (rest : List ℕ)
    → 0 < fs.opened_output_stream
    → after_renewal (renew_lease fs true) c rest ≡ c ∷ rest
unfolding renew_lease after_renewal
own_entry fs c rest o = elim (Bool-cases fs.connected) [
  | inl t ↦ let z : (fs.opened_output_stream == 0) ≡ false = ground arith in rw (t, z) refl
  | inr t ↦ rw t refl
]

other_entry :
    (r : Renewal) (c d : ℕ) (rest : List ℕ)
    → has_key c rest ≡ true
    → has_key c (after_renewal r d rest) ≡ true
unfolding has_key after_renewal
other_entry (returned true) c d rest h = if_true (c == d) h
other_entry (returned false) c d rest h = h
other_entry threw c d rest h = if_true (c == d) h

renew_all-keeps :
    (answers : ℕ → Bool) (c : ℕ) (filesystems : ℕ → FileSystem) (ds : List ℕ)
    → has_key c ds ≡ true
    → 0 < (filesystems c).opened_output_stream
    → answers c ≡ true
    → has_key c (renew_all answers filesystems ds) ≡ true
unfolding has_key renew_all
renew_all-keeps answers c filesystems [] h o a = h
renew_all-keeps answers c filesystems (d ∷ ds) h o a =
    let rest = renew_all answers filesystems ds in
    elim (Bool-cases (c == d)) [
      | inl t ↦
          let same : c ≡ d = ground arith in
          let v = subst (λ i. answers i ≡ true) same a in
          let w = subst (λ i. 0 < (filesystems i).opened_output_stream) same o in
          ap (has_key c) (
            ap (λ b. after_renewal (renew_lease (filesystems d) b) d rest) v
            ∙ own_entry (filesystems d) d rest w)
          ∙ rw t refl
      | inr t ↦
          other_entry (renew_lease (filesystems d) (answers d)) c d rest
            (renew_all-keeps answers c filesystems ds (rw t at h) o a)
    ]

-- A round keeps the thread running and a client in the map, if the client has an open stream and
-- the name node renews its lease.
pub round-keeps :
    (answers : ℕ → Bool) (c : ℕ) (s : LeaseRenewer)
    → s.stop ≡ false
    → has_key c s.maps ≡ true
    → 0 < (s.filesystems c).opened_output_stream
    → answers c ≡ true
    → (has_key c (round answers s).maps ≡ true) × ((round answers s).worker ≡ s.worker)
unfolding round
round-keeps answers c s running h o a =
    let full : is_empty s.maps ≡ false = is_empty-has_key c s.maps h in
    let kept = renew_all-keeps answers c s.filesystems s.maps h o a in
    rw (running, full)
      (kept, rw (is_empty-has_key c (renew_all answers s.filesystems s.maps) kept) refl)

start_renew-leaving :
    (c : ℕ) (s : LeaseRenewer)
    → s.stop ≡ is_idle s.worker
    → s.worker ≡ leaving
    → (start_renew c s).worker ≡ leaving
unfolding start_renew
start_renew-leaving c s e w = let running : s.stop ≡ false = e ∙ ap is_idle w in rw running w

after_leave :
    (c : ℕ) (s : LeaseRenewer)
    → has_key c s.maps ≡ true
    → 0 < (s.filesystems c).opened_output_stream
    → (has_key c (leave s).maps ≡ true)
      × (0 < ((leave s).filesystems c).opened_output_stream)
      × ((leave s).worker ≡ idle)
unfolding leave
after_leave c s h o = (h, o, refl)

-- When StartRenew of a client comes after the thread has left its loop and before it has set `stop`,
-- a state is reached in which the client has an entry and an open stream, and no thread runs.
pub start_renew-stranded :
    (filesystems : ℕ → FileSystem) (c : ℕ) (s : LeaseRenewer)
    → Reach filesystems s
    → s.worker ≡ leaving
    → (t : LeaseRenewer) × Reach filesystems t
      × (has_key c t.maps ≡ true)
      × (0 < (t.filesystems c).opened_output_stream)
      × (t.worker ≡ idle)
start_renew-stranded filesystems c s r w =
    let (has, open_stream, none_runs) =
      after_leave c (start_renew c s) (registered c s) (opened c s) in
    (
      leave (start_renew c s),
      later (later r (start c)) (exit (start_renew-leaving c s (stop-idle filesystems s r) w)),
      has,
      open_stream,
      none_runs,
    )
