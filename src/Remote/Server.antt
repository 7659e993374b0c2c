-- ===== src/Remote/Server.antt =====
-- The registry of pkg/registry as the network that the writer sends to: HTTP carries the path, the
-- query's digest, the media type and the body, and the answer back. `encode_error` is the JSON text
-- of an error.
use go_containerregistry.Prelude.{ℕ, ◌+◌, List, [], Option, codes, Result, ok, err}
use go_containerregistry.Hash.{Hash}
use go_containerregistry.Server.Http.{Request, Outcome, RegError, respond, fail, panic}
use go_containerregistry.Server.Routes.{Registry, v2}
use go_containerregistry.Remote.Act.{Act}
use go_containerregistry.Remote.Writer.{Sent, Received, WriteError, transport_failed}
use go_containerregistry.Transport.Values.{get}

-- The registry, and how many random numbers it has drawn.
pub record Site : Type 0 where
  pub registry : Registry
  pub drawn : ℕ

unfoldable pub to_request : Sent → ℕ → Request
to_request req fresh = record {
  method = req.method;
  path = req.url.path;
  digest = get req.url.query (codes "digest");
  content_range = [];
  content_type = req.content_type;
  body = req.body;
  fresh = fresh;
}

module _ (sum : List ℕ → List ℕ) (parse_index : List ℕ → Option (List Hash)) (randoms : ℕ → ℕ)
    (encode_error : RegError → List ℕ) where
  -- A handler that panics closes the connection.
  unfoldable pub received : Outcome → Result WriteError Received
  received (respond r) = ok (record { status = r.status; headers = r.headers; body = r.body })
  received (fail e) = ok (record { status = e.status; headers = []; body = encode_error e })
  received panic = err (transport_failed (codes "EOF"))

  unfoldable pub send : Sent → Act Site WriteError Received
  send req s =
      let o = v2 sum parse_index s.registry (to_request req (randoms s.drawn)) in
      (received o.0, record { registry = o.1; drawn = s.drawn + 1 })
