-- ===== src/Agent/Mounts.antt =====
-- crates/pact-agent/src/handoff/mounts.rs: reference counts of the images that allocations share.
pub mod Paths
pub mod Ledger
pub mod Counting
use Prim.Native.String.{◌++◌}
use pact.Base.{
  ℕ, zero, suc, ◌+◌, ◌-◌, ◌%◌, ◌^◌, String, String_eq, Bool, true, false, ◌&&◌, Option, none, some,
  List, [], ◌∷◌, if◌then◌else◌, leb, ltb, nat_eq, select,
}
use pact.Base.Map.{Map, lookup, insert, remove}
use pact.Base.Bindings.{keys}
use pact.Base.Text.{starts_with}
use Paths.{image_name}
use pact.Types.{DateTime, seconds}

pub record MountRefState : Type 0 where
  pub image_path : String
  pub mount_point : String
  pub refcount : ℕ
  pub hold_start : Option DateTime

pub record MountRefManager : Type 0 where
  pub mounts : Map String MountRefState
  pub hold_duration : ℕ
  pub mount_base : String

abbrev pub new : String → ℕ → MountRefManager
new mount_base hold_duration_secs = record {
  mounts = [];
  hold_duration = seconds hold_duration_secs;
  mount_base = mount_base;
}

abbrev pub mount_point : String → String → String
mount_point mount_base image_path = mount_base ++ "/" ++ image_name image_path

-- `+= 1` on a `u32`, which wraps in a release build.
abbrev pub u32 : ℕ → ℕ
u32 n = n % 2 ^ 32

unfoldable pub acquire : String → MountRefManager → MountRefManager × String
acquire image m = elim (lookup image m.mounts) [
  | some state ↦ (
    record m {
      mounts =
          insert image (record state { refcount = u32 (state.refcount + 1); hold_start = none })
            m.mounts;
    },
    state.mount_point,
  )
  | none ↦ (
    record m {
      mounts =
          insert image
            (record {
              image_path = image;
              mount_point = mount_point m.mount_base image;
              refcount = 1;
              hold_start = none;
            })
            m.mounts;
    },
    mount_point m.mount_base image,
  )
]

-- The state after a release at `now`: the hold starts when nobody uses the image.
abbrev pub released : DateTime → MountRefState → MountRefState
released now state = record state {
  refcount = state.refcount - 1;
  hold_start = if nat_eq (state.refcount - 1) 0 then some now else state.hold_start;
}

-- None is the panic of the assertion that the count is not zero.
unfoldable pub release : DateTime → String → MountRefManager → Option MountRefManager
release now image m = elim (lookup image m.mounts) [
  | none ↦ some m
  | some state ↦
      if ltb 0 state.refcount
      then some (record m { mounts = insert image (released now state) m.mounts })
      else none
]

unfoldable pub force_unmount : String → MountRefManager → MountRefManager
force_unmount image m = record m { mounts = remove image m.mounts }

abbrev pub held_long : DateTime → ℕ → Option DateTime → Bool
held_long now hold none = false
held_long now hold (some start) = leb hold (now - start)

abbrev pub is_over : DateTime → ℕ → MountRefState → Bool
is_over now hold state = nat_eq state.refcount 0 && held_long now hold state.hold_start

abbrev pub remove_all : List String → Map String MountRefState → Map String MountRefState
remove_all [] mounts = mounts
remove_all (path ∷ paths) mounts = remove_all paths (remove path mounts)

abbrev pub expired_holds : DateTime → MountRefManager → List String
expired_holds now m = keys (select (λ b. is_over now m.hold_duration b.1) m.mounts)

unfoldable pub check_expired_holds : DateTime → MountRefManager → MountRefManager × List String
check_expired_holds now m =
    (record m { mounts = remove_all (expired_holds now m) m.mounts }, expired_holds now m)

unfoldable pub reconstruct : DateTime → List (String × ℕ) → MountRefManager → MountRefManager
reconstruct now [] m = m
reconstruct now ((image, count) ∷ active) m = reconstruct now active (record m {
  mounts =
      insert image
        (record {
          image_path = image;
          mount_point = mount_point m.mount_base image;
          refcount = count;
          hold_start = if nat_eq count 0 then some now else none;
        })
        m.mounts;
})

abbrev pub refcount : String → MountRefManager → Option ℕ
refcount image m = elim (lookup image m.mounts) [ none ↦ none | some state ↦ some state.refcount ]
