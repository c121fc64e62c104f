-- ===== src/Session/Http.antt =====
-- `http_post_request`: the text of a request to the action runner in the instance.
use seuss.Prelude.{
  Bool, ◌||◌, [], ◌++◌, ◌==◌, bytes_eq, Bytes, codes, length, remove_all, if◌then◌else◌,
}
use seuss.Prelude.Decimal.{to_string}

unfoldable pub request_body : (path msg : Bytes) → Bytes
request_body path msg =
    let code = remove_all b'\n' msg in
    codes "{\"value\": "
    ++ (if path == codes "/init" || path == codes "/preInit"
        then codes "{\"main\":\"main\", \"code\":\"" ++ code ++ codes "\"}}"
        else code ++ codes "}")

unfoldable pub http_post_request : (path msg : Bytes) (keep_alive : Bool) → Bytes
http_post_request path msg keep_alive =
    let body = request_body path msg in
    codes "POST "
    ++ path
    ++ codes " HTTP/1.0\r\n"
    ++ codes "Content-Type: application/json\r\n"
    ++ (if keep_alive then codes "Connection: keep-alive\r\n" else [])
    ++ codes "content-length: "
    ++ to_string (length body)
    ++ codes "\r\n\r\n"
    ++ body
