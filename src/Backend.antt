-- ===== src/Backend.antt =====
-- internal/backend/backend.go: what a backend reports. The backends themselves (Nomad, local
-- processes) are environment: the scheduler's model takes their answers as arguments.
pub mod Nomad
pub mod Local
use distributed_test_runner.Base.{ℕ, String, Bool, Option, List}
use distributed_test_runner.Base.Int.{ℤ}
use distributed_test_runner.Model.Entities.{Slot}

-- A negative slot count is never reported.
pub record NodeInfo : Type 0 where
  pub id : String
  pub name : String
  pub slots : ℕ
  pub slot : Slot
  pub ready : Bool
  pub status : String
  pub meta : List (String × String)

pub record Placement : Type 0 where
  pub backend_id : String
  pub node_id : String
  pub node_name : String

pub data Phase : Type 0 where
  unknown pending running complete failed lost : Phase

pub record Status : Type 0 where
  pub phase : Phase
  pub alloc_id : String
  pub node_id : String
  pub node_name : String
  pub exit_code : Option ℤ
  pub message : String
