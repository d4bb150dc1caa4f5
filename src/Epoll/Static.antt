-- ===== src/Epoll/Static.antt =====
-- `ChatroomServerEpoll::handleStaticFile` (src/chatroom_server_epoll.cpp). Log lines are left out.
use chatroom_server.Prelude.{
  ◌++◌, not, ◌||◌, Bytes, bytes, bytes_eq, drop, [], none, some, if◌then◌else◌,
}
use chatroom_server.Platform.{Platform}
use chatroom_server.Epoll.Http.{get_content_type}

pub record StaticFileResult : Type 0 where
  pub content : Bytes
  pub content_type : Bytes

module _ (P : Platform) (static_dir_path : Bytes) where
  open P.files use {join, exists, read}

  unfoldable pub handle_static_file : Bytes → StaticFileResult
  handle_static_file path =
      let requested_file =
        (if bytes_eq path (bytes "/") || bytes_eq path [] then bytes "/login.html" else path) in
      let full_path = join static_dir_path (drop 1 requested_file) in
      if not (exists full_path)
      then record {
        content =
            bytes "<html><body><h1>404 Not Found</h1><p>File not found: "
            ++ requested_file
            ++ bytes "</p></body></html>";
        content_type = bytes "text/html";
      }
      else elim (read full_path) [
        | none ↦ record {
          content =
              bytes
                "<html><body><h1>500 Internal Server Error</h1><p>Failed to read file</p></body></html>";
          content_type = bytes "text/html";
        }
        | some text ↦ record { content = text; content_type = get_content_type requested_file }
      ]
