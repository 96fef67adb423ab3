-- ===== src/Api/Sources/Cloud.antt =====
-- The requests on sources that the constraints of the tables refuse.
use encodeswarmr.Prelude.{◌≡◌, refl, true, false, some, any_of, find_first}
use encodeswarmr.Db.Types.{RowId, Source}
use encodeswarmr.Db.Jobs.{create_job, initial_status, insert_job}
use encodeswarmr.Db.Sources.{create_source, has_path, has_source_id, get_source_by_id}
use encodeswarmr.Exec.{World, answering, ok, pure, call, catch, ◌>>=◌}
use encodeswarmr.Api.Jobs.{Reply}
use encodeswarmr.Api.Sources.{
  CreateSourceRequest, refused_source, insert_source, handle_create_source, job_for,
  handle_analyze_source, handle_hdr_detect_source,
}

-- Once the table has a source without a path, which every source in the cloud is, a request for
-- another source in the cloud that passes the checks is answered with a server error by a store
-- that answers, and changes nothing: the empty path is taken.
pub handle_create_source-second_cloud :
    (req : CreateSourceRequest) (w : World)
    → refused_source req ≡ false
    → req.path ≡ ""
    → any_of (has_path "") w.db.sources ≡ true
    → handle_create_source req (answering w) ≡ (ok Reply.server_error, answering w)
unfolding handle_create_source insert_source create_source call catch ◌>>=◌
handle_create_source-second_cloud req w a b t = rw (a, b, t) refl

-- A request for an analysis or for an HDR detection of a source that exists is answered with a
-- server error by a store that answers, and makes no job: the handlers leave the tags of the job
-- nil, which the table does not take.
pub handle_analyze_source-fails :
    (id : RowId) (w : World) {s : Source}
    → find_first (has_source_id id) w.db.sources ≡ some s
    → (handle_analyze_source id (answering w) ≡ (ok Reply.server_error, answering w))
      × (handle_hdr_detect_source id (answering w) ≡ (ok Reply.server_error, answering w))
unfolding handle_analyze_source handle_hdr_detect_source job_for get_source_by_id create_job call
    catch pure initial_status insert_job ◌>>=◌
handle_analyze_source-fails id w h = (rw h refl, rw h refl)
