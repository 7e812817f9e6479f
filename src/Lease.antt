-- ===== src/Lease.antt =====
-- server/src/lease.rs: the writer lease over one owner file.
--
-- The file system is what one process sees of the owner file, with the outcome of the next write of
-- it. `write_owner` renames a complete file over the record as its last step that can fail, so a
-- write that fails leaves the record. Epochs are u64 and wrap.
pub mod Fencing
use arrow_kanban.Prelude.{
  ℕ, ◌+◌, ◌%◌, ◌^◌, String, Bool, true, false, Option, none, some, Result, ok, err, eqb,
  if◌then◌else◌,
}

abbrev pub epoch_bound : ℕ
epoch_bound = 2 ^ 64

pub data LeaseError : Type 0 where
  unavailable : String → LeaseError
  corrupt : String → LeaseError

pub record WriterOwner : Type 0 where
  pub epoch : ℕ
  pub pid : ℕ
  pub hostname : String
  pub started_at_ms : ℕ
  pub nonce : ℕ

-- What reading the owner file gives: no file, a read error, a text that does not decode, or a
-- record.
pub data OwnerFile : Type 0 where
  missing : OwnerFile
  unreadable : String → OwnerFile
  undecodable : String → OwnerFile
  present : WriterOwner → OwnerFile

pub data Acquisition : Type 0 where
  fresh : Acquisition
  reclaimed : ℕ → Acquisition
  contested : ℕ → Acquisition
  non_durable : ℕ → Acquisition

pub record LocalWriterLease : Type 0 where
  pub held : ℕ
  pub owner : WriterOwner
  pub acquisition : Acquisition

-- The process that takes the lease: its id, host, clock and nonce, and which processes it sees
-- alive.
pub record Process : Type 0 where
  pub pid : ℕ
  pub hostname : String
  pub started_at_ms : ℕ
  pub nonce : ℕ
  pub is_alive : ℕ → Bool

abbrev pub next_epoch : ℕ → ℕ
next_epoch e = (e + 1) % epoch_bound

abbrev pub owner_at : Process → ℕ → WriterOwner
owner_at p e = record {
  epoch = e;
  pid = p.pid;
  hostname = p.hostname;
  started_at_ms = p.started_at_ms;
  nonce = p.nonce;
}

unfoldable pub read_owner : OwnerFile → Option WriterOwner
read_owner (present o) = some o
read_owner missing = none
read_owner (unreadable m) = none
read_owner (undecodable m) = none

unfoldable pub read_current_epoch : OwnerFile → Result LeaseError ℕ
read_current_epoch (present o) = ok o.epoch
read_current_epoch (undecodable m) = err (corrupt m)
read_current_epoch missing = ok 0
read_current_epoch (unreadable m) = err (unavailable m)

abbrev pub prior_epoch : Option WriterOwner → ℕ
prior_epoch none = 0
prior_epoch (some o) = o.epoch

-- How a durable acquisition resolved.
abbrev pub classify : Process → Option WriterOwner → Acquisition
classify p none = fresh
classify p (some o) = if p.is_alive o.pid then contested o.epoch else reclaimed o.epoch

-- `acquire_with`. The last argument is the error of the write of the owner file, if it fails.
unfoldable pub acquire_with : Process → OwnerFile → Option String → LocalWriterLease × OwnerFile
acquire_with p file none =
    let me = owner_at p (next_epoch (prior_epoch (read_owner file))) in
    (record { held = me.epoch; owner = me; acquisition = classify p (read_owner file) }, present me)
acquire_with p file (some failure) =
    let e = prior_epoch (read_owner file) in
    (record { held = e; owner = owner_at p e; acquisition = non_durable e }, file)

-- `is_current`, and `current_epoch` as the file gives it.
abbrev pub compare_epoch : ℕ → Result LeaseError ℕ → Result LeaseError Bool
compare_epoch held (ok current) = ok (eqb current held)
compare_epoch held (err x) = err x

unfoldable pub is_current : LocalWriterLease → OwnerFile → Result LeaseError Bool
is_current lease file = compare_epoch lease.held (read_current_epoch file)

-- `renew` once the current epoch is read.
abbrev pub renew_from :
    LocalWriterLease
    → Process
    → OwnerFile
    → Option String
    → Result LeaseError ℕ
    → Result LeaseError ℕ × LocalWriterLease × OwnerFile
renew_from lease p file failure (err x) = (err x, lease, file)
renew_from lease p file (some m) (ok current) = (err (unavailable m), lease, file)
renew_from lease p file none (ok current) =
    let me = owner_at p (next_epoch current) in
    (
      ok me.epoch,
      record { held = me.epoch; owner = me; acquisition = reclaimed current },
      present me,
    )

unfoldable pub renew :
    LocalWriterLease
    → Process
    → OwnerFile
    → Option String
    → Result LeaseError ℕ × LocalWriterLease × OwnerFile
renew lease p file failure = renew_from lease p file failure (read_current_epoch file)
