-- ===== src/LeaseRenewer.antt =====
-- src/client/LeaseRenewer.cpp: the thread that renews the leases of the clients with open output
-- streams, and renewLease, registerOpenedOutputStream and unregisterOpenedOutputStream of
-- src/client/FileSystemImpl.cpp, which its lock protects.
--
-- A client is the number that stands for its name; it has one file system object, which the map and
-- its streams share. What runs under the lock is one step. The thread leaves the loop under the lock,
-- but sets `stop` after it has let go of the lock, so this is a step of its own.
pub mod Steps
pub mod Thread
use libhdfs.Prelude.{
  ℕ, ◌+◌, ◌-◌, ltb, ◌==◌, if◌then◌else◌, ◌&&◌, ◌||◌, not, Bool, true, false, List, [], ◌∷◌, ◌++◌,
}

-- `connected` is whether there is a name node proxy.
pub record FileSystem : Type 0 where
  pub connected : Bool
  pub opened_output_stream : ℕ

pub data Phase : Type 0 where
  idle waiting leaving : Phase

-- `maps` holds the clients that have an entry.
pub record LeaseRenewer : Type 0 where
  pub stop : Bool
  pub maps : List ℕ
  pub filesystems : ℕ → FileSystem
  pub worker : Phase

-- What renewLease ends in.
pub data Renewal : Type 0 where
  returned : Bool → Renewal
  threw : Renewal

-- `answer` is whether the name node's renewLease returns; its exceptions are caught.
unfoldable pub renew_lease : FileSystem → Bool → Renewal
renew_lease fs answer =
    if fs.connected
    then (if fs.opened_output_stream == 0 then returned false else returned answer)
    else threw

unfoldable pub register_opened_output_stream : FileSystem → FileSystem
register_opened_output_stream fs = record fs { opened_output_stream = fs.opened_output_stream + 1 }

unfoldable pub unregister_opened_output_stream : FileSystem → Bool × FileSystem
unregister_opened_output_stream fs =
    let opened =
      if ltb 0 fs.opened_output_stream
      then fs.opened_output_stream - 1
      else fs.opened_output_stream in
    (opened == 0, record fs { opened_output_stream = opened })

unfoldable pub update : ℕ → FileSystem → (ℕ → FileSystem) → ℕ → FileSystem
update c fs filesystems d = if c == d then fs else filesystems d

-- `maps.find(clientName) != maps.end()`
unfoldable pub has_key : ℕ → List ℕ → Bool
has_key c [] = false
has_key c (d ∷ ds) = let rest = has_key c ds in if c == d then true else rest

unfoldable pub erase_key : ℕ → List ℕ → List ℕ
erase_key c [] = []
erase_key c (d ∷ ds) = let rest = erase_key c ds in if c == d then ds else (d ∷ rest)

unfoldable pub is_empty : List ℕ → Bool
is_empty [] = true
is_empty (d ∷ ds) = false

-- A thread that is joinable has set `stop`, so the join returns.
unfoldable pub start_renew : ℕ → LeaseRenewer → LeaseRenewer
start_renew c s =
    let maps = if has_key c s.maps then s.maps else (c ∷ s.maps) in
    let starts = s.stop && not (is_empty maps) in
    record {
      stop = if starts then false else s.stop;
      maps = maps;
      filesystems = update c (register_opened_output_stream (s.filesystems c)) s.filesystems;
      worker = if starts then waiting else s.worker;
    }

unfoldable pub stop_renew : ℕ → LeaseRenewer → LeaseRenewer
stop_renew c s =
    let (none_left, fs) = unregister_opened_output_stream (s.filesystems c) in
    record s {
      maps = if none_left && has_key c s.maps then erase_key c s.maps else s.maps;
      filesystems = update c fs s.filesystems;
    }

-- An entry whose renewLease returns false is erased, and one whose renewLease throws stays.
unfoldable pub after_renewal : Renewal → ℕ → List ℕ → List ℕ
after_renewal (returned true) c rest = c ∷ rest
after_renewal (returned false) c rest = rest
after_renewal threw c rest = c ∷ rest

-- The loop over the map.
unfoldable pub renew_all : (ℕ → Bool) → (ℕ → FileSystem) → List ℕ → List ℕ
renew_all answers filesystems [] = []
renew_all answers filesystems (c ∷ cs) =
    let rest = renew_all answers filesystems cs in
    after_renewal (renew_lease (filesystems c) (answers c)) c rest

-- A round of the loop, from the end of the wait on.
unfoldable pub round : (ℕ → Bool) → LeaseRenewer → LeaseRenewer
round answers s =
    if s.stop || is_empty s.maps
    then record s { worker = leaving }
    else (let maps = renew_all answers s.filesystems s.maps in
        record s { maps = maps; worker = if is_empty maps then leaving else s.worker })

-- `stop = true` behind the loop.
unfoldable pub leave : LeaseRenewer → LeaseRenewer
leave s = record s { stop = true; worker = idle }
