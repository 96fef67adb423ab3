-- ===== src/Grpc/Server.antt =====
-- internal/controller/grpc/server.go and the generated message types: what a handler is given.
use encodeswarmr.Prelude.{ℕ, ℤ, String, Bool, Option}
use encodeswarmr.Db.Types.{RowId}

-- The configuration of the server. `unmarshal_hdr` is encoding/json on the two fields of the HDR
-- result, and `none` is its error.
pub record Server : Type 0 where
  pub concat_runner : Bool
  pub vmaf_runner : Bool
  pub validation_enabled : Bool
  pub auto_approve : Bool
  pub unmarshal_hdr : String → Option (String × ℤ)

-- The metrics of a result message; a rate or a score is in thousandths, and 0 where it is absent.
pub record ResultMetrics : Type 0 where
  pub frames_encoded : ℕ
  pub avg_fps : ℕ
  pub output_size : ℕ
  pub duration_sec : ℕ
  pub vmaf_score : ℕ
  pub psnr : ℕ
  pub ssim : ℕ

pub record TaskResult : Type 0 where
  pub task_id : RowId
  pub job_id : RowId
  pub success : Bool
  pub exit_code : ℤ
  pub error_msg : String
  pub metrics : Option ResultMetrics
  pub offline_result : Bool
