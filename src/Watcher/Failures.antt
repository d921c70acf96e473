-- ===== src/Watcher/Failures.antt =====
-- main.rs `run_incremental_snapshots`: the set of invalid archives, over the parts of a round.
pub mod Parts
use solana_snapshot_etl.Prelude.{
  Bool, true, false, List, [], Option, none, some, if◌then◌else◌, is_none, is_some, ◌&&◌, ◌||◌, ◌≡◌,
  refl, filter,
}
use solana_snapshot_etl.Prelude.Result.{Result, ok, err}
use solana_snapshot_etl.Watcher.{Watch, WatchError, Machine, World}
use solana_snapshot_etl.Watcher.Staging.{
  Loop, Looping, Flow, next, continue, ◌>>=◌, ◌>>◌, ◌&>◌, lift, done, fail,
}

abbrev pub NothingInvalid : Loop → Type 0
NothingInvalid l = l.invalid_archives ≡ []

-- What is left behind, unless the loop returns an error.
abbrev pub Goes {ℓ} : {A : Type ℓ} → Result WatchError A × Loop → Type 0
Goes (ok _, l) = NothingInvalid l
Goes (err _, l) = Unit

abbrev pub Keeps {ℓ} : {A : Type ℓ} → Looping A → Type 0
Keeps m = (l : Loop) → NothingInvalid l → Goes (m l)

pub lifted-Goes {ℓ} :
    {A : Type ℓ} (r : Result WatchError A × Machine) (l : Loop)
    → NothingInvalid l
    → Goes {A = A} (r.0, record l { machine = r.1 })
lifted-Goes (ok a, m) l h = h
lifted-Goes (err e, m) l h = tt

pub lift-Keeps {ℓ} : {A : Type ℓ} (w : Watch A) → Keeps (lift w)
lift-Keeps w l h = lifted-Goes (w l.machine) l h

pub then-Goes {ℓ κ} :
    {A : Type ℓ} {B : Type κ} (r : Result WatchError A × Loop) (f : A → Looping B)
    → Goes r
    → ((a : A) → Keeps (f a))
    → Goes {A = B} (let (answer, l') = r in elim answer [ ok a ↦ f a l' | err e ↦ (err e, l') ])
then-Goes (ok a, l) f h k = k a l h
then-Goes (err e, l) f h k = tt

pub bind-Keeps {ℓ κ} :
    {A : Type ℓ} {B : Type κ} (m : Looping A) (f : A → Looping B)
    → Keeps m
    → ((a : A) → Keeps (f a))
    → Keeps (m >>= f)
bind-Keeps m f p k l h = then-Goes (m l) f (p l h) k

pub next-Goes :
    (r : Result WatchError Flow × Loop) (q : Looping Flow)
    → Goes r
    → Keeps q
    → Goes {A = Flow} (
        let (answer, l') = r in
        elim answer [ ok next ↦ q l' | ok continue ↦ (ok continue, l') | err e ↦ (err e, l') ])
next-Goes (ok next, l) q h k = k l h
next-Goes (ok continue, l) q h k = h
next-Goes (err e, l) q h k = tt

pub next-Keeps : (p q : Looping Flow) → Keeps p → Keeps q → Keeps (p &> q)
next-Keeps p q kp kq l h = next-Goes (p l) q (kp l h) kq

pub if-Goes {ℓ} :
    {A : Type ℓ} (b : Bool) (m n : Looping A)
    → Keeps m
    → Keeps n
    → (l : Loop) → NothingInvalid l
    → Goes (if b then m l else n l)
if-Goes true m n km kn l h = km l h
if-Goes false m n km kn l h = kn l h
