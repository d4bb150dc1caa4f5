-- ===== src/Threaded/Static.antt =====
-- `ChatroomServer::handleStaticFileRequest` (src/chatroom_server.cpp). Log lines are left out.
use chatroom_server.Prelude.{
  ◌-◌, ◌++◌, Bool, not, ◌&&◌, ◌||◌, Bytes, bytes, bytes_eq, drop, length, leb, [], none, some,
  if◌then◌else◌,
}
use chatroom_server.Platform.{Platform}
use chatroom_server.Http.Response.{HttpResponse, set_status, set_header, set_body, http_response}

-- `str.size() >= suffix.size() && str.compare(str.size() - suffix.size(), suffix.size(), suffix) == 0`
unfoldable pub ends_with : Bytes → Bytes → Bool
ends_with str suffix =
    leb (length suffix) (length str) && bytes_eq (drop (length str - length suffix) str) suffix

unfoldable pub content_type_of : Bytes → Bytes
content_type_of requested_file =
    if ends_with requested_file (bytes ".html") || ends_with requested_file (bytes ".htm")
    then bytes "text/html"
    else if ends_with requested_file (bytes ".css")
    then bytes "text/css"
    else if ends_with requested_file (bytes ".js")
    then bytes "application/javascript"
    else if ends_with requested_file (bytes ".json")
    then bytes "application/json"
    else if ends_with requested_file (bytes ".png")
    then bytes "image/png"
    else if ends_with requested_file (bytes ".jpg") || ends_with requested_file (bytes ".jpeg")
    then bytes "image/jpeg"
    else bytes "text/plain"

-- `if (requestedFile == "/" || requestedFile.empty()) requestedFile = "/login.html";`
unfoldable pub requested_file_of : Bytes → Bytes
requested_file_of path =
    if bytes_eq path (bytes "/") || bytes_eq path [] then bytes "/login.html" else path

-- `HttpResponse response; setStatus; setHeader("Content-Type", …); setBody`. The default
-- constructor's arguments are 200 and the empty text.
unfoldable pub static_response : Bytes → Bytes → HttpResponse → HttpResponse
static_response content_type content response =
    set_body (set_header response (bytes "Content-Type") content_type) content

module _ (P : Platform) (static_dir_path : Bytes) where
  open P.files use {join, exists, read}

  unfoldable pub handle_static_file_request : Bytes → HttpResponse
  handle_static_file_request dir_path =
      let requested_file = requested_file_of dir_path in
      let full_path = join static_dir_path (drop 1 requested_file) in
      if not (exists full_path)
      then static_response (bytes "text/html")
          (bytes "<html><body><h1>404 Not Found</h1><p>File not found: "
            ++ requested_file
            ++ bytes "</p></body></html>")
          (set_status (http_response 200 []) 404)
      else elim (read full_path) [
        | none ↦
            static_response (bytes "text/html")
              (bytes
                "<html><body><h1>500 Internal Server Error</h1><p>Failed to read file</p></body></html>")
              (set_status (http_response 200 []) 500)
        | some content ↦
            static_response (content_type_of requested_file) content
              (set_status (http_response 200 []) 200)
      ]
