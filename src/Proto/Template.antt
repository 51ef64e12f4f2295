-- ===== src/Proto/Template.antt =====
-- The message WorkflowTemplate of protos/template/template.proto.
use tink.Prelude.{String, Option}
use tink.Prelude.Int.{ℤ}

pub record WorkflowTemplate : Type 0 where
  pub id : String
  pub name : String
  pub created_at : Option ℤ
  pub updated_at : Option ℤ
  pub deleted_at : Option ℤ
  pub content : String
