-- ===== src/LeaseRenewer/Steps.antt =====
-- The steps of the clients and of the thread, in any order, and what holds after all of them.
use libhdfs.Prelude.{
  ℕ, ◌≡◌, refl, ◌∙◌, ap, if◌then◌else◌, ◌&&◌, ◌||◌, not, Bool, true, false, [], ◌∷◌, inl, inr,
  Bool-cases,
}
use libhdfs.LeaseRenewer.{
  FileSystem, Phase, idle, waiting, leaving, LeaseRenewer, has_key, is_empty, update, start_renew,
  stop_renew, renew_all, round, leave,
}

-- `connect` stands for all that happens to a file system outside of the lock.
pub data Step (s : LeaseRenewer) : LeaseRenewer → Type 0 where
  start : (c : ℕ) → Step s (start_renew c s)
  finish : (c : ℕ) → Step s (stop_renew c s)
  connect :
      (c : ℕ) (b : Bool)
      → Step s (record s {
        filesystems = update c (record (s.filesystems c) { connected = b }) s.filesystems;
      })
  wake : (answers : ℕ → Bool) → s.worker ≡ waiting → Step s (round answers s)
  exit : s.worker ≡ leaving → Step s (leave s)

-- Before the first stream: `stop` is true and there is no thread.
abbrev pub initial : (ℕ → FileSystem) → LeaseRenewer
initial filesystems = record { stop = true; maps = []; filesystems = filesystems; worker = idle }

pub data Reach (filesystems : ℕ → FileSystem) : LeaseRenewer → Type 0 where
  begin : Reach filesystems (initial filesystems)
  later : {s t : LeaseRenewer} → Reach filesystems s → Step s t → Reach filesystems t

abbrev pub is_idle : Phase → Bool
is_idle idle = true
is_idle waiting = false
is_idle leaving = false

start-idle :
    (c : ℕ) (s : LeaseRenewer)
    → s.stop ≡ is_idle s.worker
    → (start_renew c s).stop ≡ is_idle (start_renew c s).worker
unfolding start_renew
start-idle c s e =
    elim (Bool-cases
      (s.stop && not (is_empty (if has_key c s.maps then s.maps else (c ∷ s.maps))))) [
        | inl t ↦ rw t refl
        | inr t ↦ rw t e
      ]

round-idle :
    (answers : ℕ → Bool) (s : LeaseRenewer)
    → s.worker ≡ waiting
    → s.stop ≡ is_idle s.worker
    → (round answers s).stop ≡ is_idle (round answers s).worker
unfolding round
round-idle answers s w e =
    let running : s.stop ≡ false = e ∙ ap is_idle w in
    elim (Bool-cases (s.stop || is_empty s.maps)) [
      | inl t ↦ rw t running
      | inr t ↦ rw t (elim (Bool-cases (is_empty (renew_all answers s.filesystems s.maps))) [
        | inl u ↦ rw u running
        | inr u ↦ rw u e
      ])
    ]

finish-idle :
    (c : ℕ) (s : LeaseRenewer)
    → s.stop ≡ is_idle s.worker
    → (stop_renew c s).stop ≡ is_idle (stop_renew c s).worker
unfolding stop_renew
finish-idle c s e = e

leave-idle : (s : LeaseRenewer) → (leave s).stop ≡ is_idle (leave s).worker
unfolding leave
leave-idle s = refl

-- In every reachable state `stop` is true exactly if no thread is in its loop or on its way out of
-- it, so a new thread never starts beside an old one, and finds `stop` false.
pub stop-idle :
    (filesystems : ℕ → FileSystem) (s : LeaseRenewer)
    → Reach filesystems s
    → s.stop ≡ is_idle s.worker
stop-idle filesystems _ begin = refl
stop-idle filesystems _ (later r (start c)) = start-idle c _ (stop-idle filesystems _ r)
stop-idle filesystems _ (later r (finish c)) = finish-idle c _ (stop-idle filesystems _ r)
stop-idle filesystems _ (later r (connect c b)) = stop-idle filesystems _ r
stop-idle filesystems _ (later r (wake answers w)) =
    round-idle answers _ w (stop-idle filesystems _ r)
stop-idle filesystems _ (later r (exit w)) = leave-idle _
