-- ===== src/Core/Metrics.antt =====
-- crates/core/src/metrics.rs, over the `prometheus` crate, whose code is not in the repository.
use sonic_edge.Base.{ℕ, ◌≡◌, Bool, true, false, List, [], ◌∷◌, bytes_eq, leb, ◌==◌, ◌&&◌, ◌||◌}
use sonic_edge.Exec.{Result, ok, Exec}
use sonic_edge.Core.Types.{Bytes}
use sonic_edge.Core.Config.{Text}

-- A character that a metric's name may begin with: a letter, `_` or `:`.
abbrev is_initial : ℕ → Bool
is_initial c = (leb 97 c && leb c 122) || (leb 65 c && leb c 90) || c == 95 || c == 58

abbrev is_inner : List ℕ → Bool
is_inner [] = true
is_inner (c ∷ cs) = (is_initial c || (leb 48 c && leb c 57)) && is_inner cs

-- The names that prometheus documents as those of metrics.
abbrev pub is_metric_name : Text → Bool
is_metric_name [] = false
is_metric_name (c ∷ cs) = is_initial c && is_inner cs

abbrev pub has_name : Text → List Text → Bool
has_name name [] = false
has_name name (n ∷ names) = bytes_eq name n || has_name name names

-- A registry with the names registered in it, the last one first. `with_opts` makes a counter or a
-- gauge of a name, and fails for a name that is none.
pub record Prometheus : Type 1 where
  pub Registry : Type 0
  pub new_registry : Registry
  pub with_opts : Text → Result (Unit {0})
  pub register : Text → Exec Registry (Unit {0})
  -- The bytes that `TextEncoder` writes for the registry's metrics. They are UTF-8, which
  -- `from_utf8_lossy` keeps.
  pub encode : Registry → Bytes
  pub names : Registry → List Text
  pub names-new : names new_registry ≡ []
  pub with_opts_lem : (name : Text) → is_metric_name name ≡ true → with_opts name ≡ ok tt
  pub register-fresh :
      (name : Text) (r : Registry) → has_name name (names r) ≡ false → (register name r).0 ≡ ok tt
  pub names-register :
      (name : Text) (r : Registry)
      → has_name name (names r) ≡ false
      → names (register name r).1 ≡ name ∷ names r

module _ (p : Prometheus) where
  pub record Metrics : Type 0 where
    pub registry : p.Registry

  unfoldable pub new : Metrics
  new = record { registry = p.new_registry }

  unfoldable pub gather : Metrics → Bytes
  gather m = p.encode m.registry
