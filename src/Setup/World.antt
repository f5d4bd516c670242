-- ===== src/Setup/World.antt =====
-- The steps of run as a chain that stops at the first error: the files, the status and the directories
-- change on the way.
use openconnect_ubuntu_touch.Common.{
  Bool, true, false, List, Option, none, some, Result, ok, err, ◌≡◌, refl, sym, ap, if◌then◌else◌,
}
use openconnect_ubuntu_touch.Common.Text.{Text}
use openconnect_ubuntu_touch.Params.Env.{ParamsError}
use openconnect_ubuntu_touch.Params.Addresses.{AddressError}
use openconnect_ubuntu_touch.Parent.{ParentError}
use openconnect_ubuntu_touch.Pki.{PkiError}
use openconnect_ubuntu_touch.Creds.{CredsError}
use openconnect_ubuntu_touch.Descriptors.{FdError}
use openconnect_ubuntu_touch.Files.{FileSystem}
use openconnect_ubuntu_touch.Status.{Status}

-- The openvpn process.
pub data Child : Type 0 where
  idle : Child
  running : Child
  killed : Child
  exited : Child

pub record World : Type 0 where
  pub files : FileSystem
  pub status : Status
  pub dirs : List Text
  pub child : Child

-- The errors of run, by the call that returns them.
pub data RunError : Type 0 where
  bad_params : ParamsError → RunError
  parent_gone : ParentError → RunError
  no_dirs : RunError
  no_pki : PkiError → RunError
  no_executable : RunError
  no_tool : RunError
  no_creds : CredsError → RunError
  bad_addresses : AddressError → RunError
  no_pid_file : RunError
  no_socketpair : RunError
  no_config_file : RunError
  no_ccd_file : RunError
  no_log : RunError
  not_started : RunError
  no_vpn_conn : FdError → RunError
  no_tun_conn : FdError → RunError

abbrev pub Step : Type 0 → Type 0
Step A = World → World × Result RunError A

-- What follows a step, for its result.
abbrev pub proceed :
    {A B : Type 0} → (A → Step B) → World × Result RunError A → World × Result RunError B
proceed next (w, ok a) = next a w
proceed next (w, err e) = (w, err e)

infixl 5 ◌>>=◌ ◌>>◌
unfoldable pub ◌>>=◌ : {A B : Type 0} → Step A → (A → Step B) → Step B
◌>>=◌ m next w = proceed next (m w)

abbrev pub ◌>>◌ : {A B : Type 0} → Step A → Step B → Step B
m >> k = m >>= λ _. k

abbrev pub finished : {A : Type 0} → A → Step A
finished a w = (w, ok a)

-- A result that changes nothing, with its error as run's.
abbrev pub lift_result : {A E : Type 0} → (E → RunError) → Result E A → Step A
lift_result wrap (ok a) w = (w, ok a)
lift_result wrap (err e) w = (w, err (wrap e))

abbrev pub lift_option : {A : Type 0} → RunError → Option A → Step A
lift_option e none w = (w, err e)
lift_option e (some a) w = (w, ok a)

-- A call that changes the files.
abbrev pub with_files :
    {A E : Type 0} → (E → RunError) → (FileSystem → FileSystem × Result E A) → Step A
with_files wrap f w = let r = f w.files in lift_result wrap r.1 (record w { files = r.0 })

-- A write whose error ends the run.
abbrev pub with_write : RunError → (FileSystem → FileSystem × Bool) → Step (Unit {0})
with_write e f w = let r = f w.files in (record w { files = r.0 }, if r.1 then ok tt else err e)

-- A step that succeeds has a first part that succeeds.
pub >>=-eq-ok :
    {A B : Type 0} {w' : World} {b : B} (m : Step A) (next : A → Step B) (w : World)
    → (m >>= next) w ≡ (w', ok b)
    → (a : A) × (v : World) × (m w ≡ (v, ok a)) × (next a v ≡ (w', ok b))
unfolding ◌>>=◌
>>=-eq-ok {A} {B} {w'} {b} m next w h = split (m w) h
  where
    split :
        (r : World × Result RunError A)
        → proceed next r ≡ (w', ok b)
        → (a : A) × (v : World) × (r ≡ (v, ok a)) × (next a v ≡ (w', ok b))
    split (v, ok a) p = (a, v, refl, p)
    split (v, err e) p = cc

pub lift_result-eq-ok :
    {A E : Type 0} {a : A} {w v : World} (wrap : E → RunError) (r : Result E A)
    → lift_result wrap r w ≡ (v, ok a)
    → (r ≡ ok a) × (w ≡ v)
lift_result-eq-ok {A} {E} wrap (ok b) h =
    (ap result_of h, ap (λ (t : World × Result RunError A). t.0) h)
  where
    result_of : World × Result RunError A → Result E A
    result_of (u, ok c) = ok c
    result_of (u, err e) = ok b
lift_result-eq-ok wrap (err e) h = cc

pub lift_option-eq-ok :
    {A : Type 0} {a : A} {w v : World} (e : RunError) (o : Option A)
    → lift_option e o w ≡ (v, ok a)
    → (o ≡ some a) × (w ≡ v)
lift_option-eq-ok {A} e none h = cc
lift_option-eq-ok {A} e (some b) h = (ap option_of h, ap (λ (t : World × Result RunError A). t.0) h)
  where
    option_of : World × Result RunError A → Option A
    option_of (u, ok c) = some c
    option_of (u, err x) = some b

pub with_files-eq-ok :
    {A E : Type 0} {a : A} {v : World} (wrap : E → RunError)
    (f : FileSystem → FileSystem × Result E A) (w : World)
    → with_files wrap f w ≡ (v, ok a)
    → (f w.files ≡ (v.files, ok a)) × (v.status ≡ w.status)
with_files-eq-ok {A} {E} {a} {v} wrap f w h =
    let (result, world) = lift_result-eq-ok wrap (f w.files).1 h in
    ((λ i. ((world i).files, result i)), ap (λ (t : World). t.status) (sym world))

pub with_write-eq-ok :
    {u : Unit {0}} {v : World} (e : RunError) (f : FileSystem → FileSystem × Bool) (w : World)
    → with_write e f w ≡ (v, ok u)
    → ((f w.files).1 ≡ true) × (v.files ≡ (f w.files).0) × (v.status ≡ w.status)
with_write-eq-ok {u} {v} e f w h = split (f w.files) h
  where
    split :
        (r : FileSystem × Bool)
        → ◌≡◌ {A = World × Result RunError (Unit {0})}
            (record w { files = r.0 }, if r.1 then ok tt else err e)
            (v, ok u)
        → (r.1 ≡ true) × (v.files ≡ r.0) × (v.status ≡ w.status)
    split (fs, true) p =
        let world = ap (λ (t : World × Result RunError (Unit {0})). t.0) p in
        (refl, ap (λ (t : World). t.files) (sym world), ap (λ (t : World). t.status) (sym world))
    split (fs, false) p = cc (ap (λ (t : World × Result RunError (Unit {0})). t.1) p)

pub finished-eq-ok :
    {A : Type 0} {a b : A} {w v : World} → finished a w ≡ (v, ok b) → (a ≡ b) × (w ≡ v)
finished-eq-ok {A} {a} h = (ap value_of h, ap (λ (t : World × Result RunError A). t.0) h)
  where
    value_of : World × Result RunError A → A
    value_of (u, ok c) = c
    value_of (u, err x) = a
