-- ===== src/Tenant.antt =====
-- oetp-core/src/tenant.rs: tenants and their keys.
use oetp.Prelude.{is_empty, Bytes}
use oetp.Result.{invalid_input, Result, ok, ◌>>◌, reject}
use oetp.Crates.{Crates}
use oetp.Hashing.{derive_exam_master_key}

pub record TenantId : Type 0 where
  pub id : Bytes

pub record TenantKeys : Type 0 where
  pub tenant_id : TenantId
  pub signing_key : Bytes

pub record ExamKeys : Type 0 where
  pub tenant_id : TenantId
  pub exam_id : Bytes
  pub signing_key : Bytes
  pub master_key : Bytes

unfoldable pub new : Bytes → Result TenantId
new id = do
  reject (is_empty id) (invalid_input "Tenant ID cannot be empty")
  ok (record { id = id })

-- `TenantKeys::generate`, with the secret that is drawn.
unfoldable pub generate : TenantId → Bytes → TenantKeys
generate tenant_id drawn = record { tenant_id = tenant_id; signing_key = drawn }

module _ (c : Crates) where
  unfoldable pub derive_master_key : Bytes → Bytes → Bytes
  unfolding derive_exam_master_key
  derive_master_key tenant_master_key exam_id = derive_exam_master_key c tenant_master_key exam_id
