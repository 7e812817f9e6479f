-- ===== src/Lease/Fencing.antt =====
-- server/src/lease.rs: which holders a takeover of the lease fences, and which it does not.
use arrow_kanban.Prelude.{
  ℕ, zero, suc, ◌+◌, ◌<◌, String, ◌≡◌, ap, ◌∙◌, true, none, some, ok, eqb, arith,
}
use arrow_kanban.Lease.{
  LocalWriterLease, OwnerFile, missing, unreadable, undecodable, present, Process, non_durable,
  epoch_bound, read_owner, read_current_epoch, acquire_with, is_current, renew,
}

-- One process after another takes the lease, each write of the owner file durable: `Takes f g n`
-- when `n` of them lead from the file `f` to the file `g`. A renewal is by any lease.
pub data Takes : OwnerFile → OwnerFile → ℕ → Type 0 where
  done : (f : OwnerFile) → Takes f f zero
  acquired :
      (f g : OwnerFile) (n : ℕ) (p : Process)
      → Takes f g n
      → Takes f (acquire_with p g none).1 (suc n)
  renewed :
      (f g : OwnerFile) (n : ℕ) (p : Process) (lease : LocalWriterLease)
      → Takes f g n
      → Takes f (renew lease p g none).2 (suc n)

acquired_epoch :
    (p : Process) (g : OwnerFile) (e : ℕ)
    → read_current_epoch g ≡ ok e
    → e + 1 < epoch_bound
    → read_current_epoch (acquire_with p g none).1 ≡ ok (e + 1)
unfolding acquire_with read_owner read_current_epoch
acquired_epoch p missing e h b = ground arith
acquired_epoch p (unreadable m) e h b = cc
acquired_epoch p (undecodable m) e h b = cc
acquired_epoch p (present o) e h b = ground arith

renewed_epoch :
    (p : Process) (lease : LocalWriterLease) (g : OwnerFile) (e : ℕ)
    → read_current_epoch g ≡ ok e
    → e + 1 < epoch_bound
    → read_current_epoch (renew lease p g none).2 ≡ ok (e + 1)
unfolding renew read_current_epoch
renewed_epoch p lease g e h b = ground arith

-- Takeovers raise the epoch on file by one each, below the bound.
pub read_current_epoch-Takes :
    (f g : OwnerFile) (n e : ℕ)
    → Takes f g n
    → read_current_epoch f ≡ ok e
    → e + n < epoch_bound
    → read_current_epoch g ≡ ok (e + n)
read_current_epoch-Takes f _ _ e (done _) h b = ground (arith, h)
read_current_epoch-Takes f _ _ e (acquired _ g n p t) h b =
    let here = read_current_epoch-Takes f g n e t h (omega arith) in
    acquired_epoch p g (e + n) here (omega arith) ∙ ap ok (omega arith)
read_current_epoch-Takes f _ _ e (renewed _ g n p lease t) h b =
    let here = read_current_epoch-Takes f g n e t h (omega arith) in
    renewed_epoch p lease g (e + n) here (omega arith) ∙ ap ok (omega arith)

-- Where the owner file is taken or renewed any number of times, each write of it durable, a holder
-- that was current is current after none of them, and fenced after one or more, if the epoch stays
-- below its bound.
pub is_current-Takes :
    (lease : LocalWriterLease) (f g : OwnerFile) (n : ℕ)
    → Takes f g n
    → is_current lease f ≡ ok true
    → lease.held + n < epoch_bound
    → is_current lease g ≡ ok (eqb n 0)
unfolding is_current
is_current-Takes lease f g n t h b =
    let start : read_current_epoch f ≡ ok lease.held = ground arith in
    ground (arith, read_current_epoch-Takes f g n lease.held t start b)

-- A takeover that is durable is current, unless the file was there and could not be read as a
-- record.
pub acquire_with-current :
    (p : Process) (f : OwnerFile) (e : ℕ)
    → read_current_epoch f ≡ ok e
    → e + 1 < epoch_bound
    → ((acquire_with p f none).0.held ≡ e + 1)
      × (is_current (acquire_with p f none).0 (acquire_with p f none).1 ≡ ok true)
unfolding acquire_with is_current read_owner read_current_epoch
acquire_with-current p f e h b = ground arith

-- A takeover whose write fails changes no file and fences nobody: it holds the epoch on file, and
-- both it and a holder that was current are current.
pub acquire_with-non_durable :
    (lease : LocalWriterLease) (p : Process) (f : OwnerFile) (failure : String)
    → is_current lease f ≡ ok true
    → let taken = acquire_with p f (some failure) in
      (taken.1 ≡ f)
      × (taken.0.acquisition ≡ non_durable lease.held)
      × (is_current taken.0 f ≡ ok true)
unfolding acquire_with is_current read_owner read_current_epoch
acquire_with-non_durable lease p f failure h = ground arith

-- A takeover, its write durable, from a file that does not decode starts again at epoch 1: a holder
-- of epoch 1 is not fenced by it, and both are current.
pub acquire_with-undecodable :
    (lease : LocalWriterLease) (p : Process) (text : String)
    → lease.held ≡ 1
    → let taken = acquire_with p (undecodable text) none in
      (is_current taken.0 taken.1 ≡ ok true) × (is_current lease taken.1 ≡ ok true)
unfolding acquire_with is_current read_owner read_current_epoch
acquire_with-undecodable lease p text h = ground arith
