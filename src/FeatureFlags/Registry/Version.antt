-- ===== src/FeatureFlags/Registry/Version.antt =====
-- The version of the registry of modules/featureflags/registry.go, by which computed flags are
-- cached.
use tracks.Common.{
  ◌+◌, ◌%◌, ◌^◌, ◌≤◌, ◌<◌, ℕ, String, ◌≡◌, refl, sym, ap, ◌∙◌, inl, inr, Bool, true, false, some,
  List, [], ◌∷◌, arith, eq_iff, if◌then◌else◌, Bool-cases, ◌==◌, string_eq, length,
}
use tracks.Common.Dict
use mathlib.Core.Option.{some-injective}
use tracks.Common.Dict.{Dict}
use tracks.FeatureFlags.Registry.{
  Flag, Registry, is_change, register_flag, register_flags, get_default,
}

-- How many registrations of a run change what is registered.
pub changes : Bool → Registry → List Flag → ℕ
changes dev r [] = 0
changes dev r (f ∷ fs) =
    let skipped = changes dev r fs in
    let added = changes dev (register_flag r f) fs in
    if f.key == ""
    then skipped
    else (if is_change (Dict.get f.key r.registered) f then 1 else 0) + added

changes-le-length : (dev : Bool) (r : Registry) (fs : List Flag) → changes dev r fs ≤ length fs
unfolding changes
changes-le-length dev r [] = omega arith
changes-le-length dev r (f ∷ fs) =
    ground (arith, changes-le-length dev r fs, changes-le-length dev (register_flag r f) fs)

get_default-register :
    (r : Registry) (f : Flag) (key : String)
    → is_change (Dict.get f.key r.registered) f ≡ false
    → get_default (register_flag r f) key ≡ get_default r key
unfolding get_default register_flag
get_default-register r f key h =
    ground (arith, Dict.get-put f.key key f r.registered, eq_iff f.key key)

reg_ver-register_flag :
    (r : Registry) (f : Flag)
    → r.reg_ver < 2 ^ 64
    → (register_flag r f).reg_ver
      ≡ (r.reg_ver + (if is_change (Dict.get f.key r.registered) f then 1 else 0)) % 2 ^ 64
unfolding register_flag
reg_ver-register_flag r f h = elim (Bool-cases (is_change (Dict.get f.key r.registered) f)) [
  | inl changed ↦ rw (changed, register_flag) refl
  | inr same ↦ rw (same, register_flag) (omega arith)
]

reg_ver-lt : (r : Registry) (f : Flag) → r.reg_ver < 2 ^ 64 → (register_flag r f).reg_ver < 2 ^ 64
reg_ver-lt r f h = omega (arith, reg_ver-register_flag r f h)

-- The two ways in which a registration goes on.
data Registered (dev : Bool) (r : Registry) (f : Flag) (fs : List Flag) (r' : Registry)
    : Type 0 where
  skips : (f.key == "") ≡ true → register_flags dev r fs ≡ some r' → Registered dev r f fs r'
  adds :
      (f.key == "") ≡ false
      → register_flags dev (register_flag r f) fs ≡ some r'
      → Registered dev r f fs r'

register_flags-cons :
    (dev : Bool) (r r' : Registry) (f : Flag) (fs : List Flag)
    → register_flags dev r (f ∷ fs) ≡ some r'
    → Registered dev r f fs r'
unfolding register_flags
register_flags-cons dev r r' f fs e = elim (Bool-cases (f.key == "")) [
  | inl empty ↦ skips empty (ground arith)
  | inr named ↦ adds named (ground arith)
]

reg_ver-register_flags :
    (dev : Bool) (r r' : Registry) (fs : List Flag)
    → r.reg_ver < 2 ^ 64
    → register_flags dev r fs ≡ some r'
    → r'.reg_ver ≡ (r.reg_ver + changes dev r fs) % 2 ^ 64
unfolding register_flags changes
reg_ver-register_flags dev r r' [] h e =
    let same : r.reg_ver ≡ r'.reg_ver = ap (λ (o : Registry). o.reg_ver) (some-injective r r' e) in
    omega arith
reg_ver-register_flags dev r r' (f ∷ fs) h e = elim (register_flags-cons dev r r' f fs e) [
  | skips empty later ↦ rw empty (reg_ver-register_flags dev r r' fs h later)
  | adds named later ↦ rw named (
      omega (
        arith,
        reg_ver-register_flags dev (register_flag r f) r' fs (reg_ver-lt r f h) later,
        reg_ver-register_flag r f h,
      ))
]

get_default-register_flags :
    (dev : Bool) (r r' : Registry) (fs : List Flag) (key : String)
    → register_flags dev r fs ≡ some r'
    → changes dev r fs ≡ 0
    → get_default r' key ≡ get_default r key
unfolding register_flags changes
get_default-register_flags dev r r' [] key e h =
    ap (λ (o : Registry). get_default o key) (sym (some-injective r r' e))
get_default-register_flags dev r r' (f ∷ fs) key e h = elim (register_flags-cons dev r r' f fs e) [
  | skips empty later ↦ get_default-register_flags dev r r' fs key later (ground arith)
  | adds named later ↦
      get_default-register_flags dev (register_flag r f) r' fs key later (ground arith)
      ∙ get_default-register r f key (ground arith)
]

-- If registering fewer than 2^64 flags leaves the version as it was, then it leaves the default of
-- every key as it was, and which keys are registered: what was cached under the version holds.
pub reg_ver_sound :
    (dev : Bool) (r r' : Registry) (fs : List Flag) (key : String)
    → r.reg_ver < 2 ^ 64
    → length fs < 2 ^ 64
    → register_flags dev r fs ≡ some r'
    → r'.reg_ver ≡ r.reg_ver
    → get_default r' key ≡ get_default r key
reg_ver_sound dev r r' fs key h few e same =
    get_default-register_flags dev r r' fs key e
      (omega (arith, reg_ver-register_flags dev r r' fs h e, changes-le-length dev r fs))
