-- ===== src/Api/Health.antt =====
-- The probe of internal/common/server/server.go, outside the versioned API.
use go_finish_line_api.Text.{Text, codes}
use go_finish_line_api.Httpx.{json, Response, respond}
use go_finish_line_api.Httpx.Request.{Handler}
use go_finish_line_api.Store.{Answer, row, duplicated_key, record_not_found, failed, Sql, call}

-- PingContext reads no table; it is lost as a statement is.
abbrev pub ping : Sql (Unit {0})
ping db = (row tt, db)

abbrev pub health_response : Answer (Unit {0}) → Response Text
health_response (row _) = respond 200 (json (codes "ok"))
health_response duplicated_key = respond 503 (json (codes "unavailable"))
health_response record_not_found = respond 503 (json (codes "unavailable"))
health_response failed = respond 503 (json (codes "unavailable"))

-- `handleHealth`, with the value at `status`
unfoldable pub handle_health : Handler Text
unfolding call
handle_health w = let (answer, w') = call ping w in (health_response answer, w')
