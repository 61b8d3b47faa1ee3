-- ===== src/Options.antt =====
-- common/options.go: the options of a node, set one after the other.
use mini_ray.Base.{Bool, List, false, ℕ}
use mathlib.Core.List.{foldl}

pub record Options : Type 0 where
  pub max_connections : ℕ
  pub reuse_addr : Bool
  pub reuse_port : Bool
  pub task_chan_size : ℕ
  pub register_object_chan_size : ℕ

-- `options := common.Options{}`, then `opt(&options)` for each.
unfoldable pub options_of : List (Options → Options) → Options
options_of opts = foldl (λ o opt. opt o) zeroed opts
  where
    zeroed : Options
    zeroed = record {
      max_connections = 0;
      reuse_addr = false;
      reuse_port = false;
      task_chan_size = 0;
      register_object_chan_size = 0;
    }

unfoldable pub with_max_connections : ℕ → Options → Options
with_max_connections n o = record o { max_connections = n }

unfoldable with_reuse_addr : Bool → Options → Options
with_reuse_addr b o = record o { reuse_addr = b }

unfoldable with_reuse_port : Bool → Options → Options
with_reuse_port b o = record o { reuse_port = b }

unfoldable with_task_chan_size : ℕ → Options → Options
with_task_chan_size n o = record o { task_chan_size = n }

unfoldable with_register_object_chan_size : ℕ → Options → Options
with_register_object_chan_size n o = record o { register_object_chan_size = n }
