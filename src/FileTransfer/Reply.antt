-- ===== src/FileTransfer/Reply.antt =====
-- What `sendResponse`, `handleDownload` and `handleDownloadHead` of src/CrossPointWebServer.cpp send to
-- a client that takes it all.
use crosspoint_simulator.Prelude.{
  ℕ, List, [], ◌∷◌, ◌++◌, ◌==◌, if◌then◌else◌, length, flatten, Bytes, codes,
}
use crosspoint_simulator.Http.Response.{show_number}
use crosspoint_simulator.FileTransfer.Escape.{header_safe_filename}

-- A status with its content type, the headers that are added and the body; a file with its size, its
-- name and what is read from it; or the headers of a file alone.
pub data Reply : Type 0 where
  plain : ℕ → Bytes → Bytes → Bytes → Reply
  attachment : ℕ → Bytes → List Bytes → Reply
  attachment_head : ℕ → Bytes → Reply

abbrev reasons : List (ℕ × Bytes)
reasons =
    (201, codes "Created")
    ∷ (204, codes "No Content")
    ∷ (207, codes "Multi-Status")
    ∷ (400, codes "Bad Request")
    ∷ (403, codes "Forbidden")
    ∷ (404, codes "Not Found")
    ∷ (409, codes "Conflict")
    ∷ (412, codes "Precondition Failed")
    ∷ (413, codes "Payload Too Large")
    ∷ (500, codes "Internal Server Error")
    ∷ (501, codes "Not Implemented")
    ∷ []

unfoldable pub reason_of : List (ℕ × Bytes) → ℕ → Bytes
reason_of [] status = codes "OK"
reason_of ((s, text) ∷ rest) status = if status == s then text else reason_of rest status

unfoldable pub plain_text : ℕ → Bytes → Bytes → Bytes → Bytes
unfolding reason_of
plain_text status kind extra body =
    codes "HTTP/1.1 "
    ++ (show_number status
        ++ (codes " "
            ++ (reason_of reasons status
                ++ (codes "\r\nContent-Length: "
                    ++ (show_number (length body)
                        ++ (codes "\r\nContent-Type: "
                            ++ (kind
                                ++ (codes
                                      "\r\nConnection: close\r\nAccess-Control-Allow-Origin: *\r\n"
                                    ++ (extra ++ (codes "\r\n" ++ body))))))))))

-- The headers of a file up to its name and the end of that line.
unfoldable pub file_headers : ℕ → Bytes → Bytes
unfolding header_safe_filename
file_headers size name =
    codes "HTTP/1.1 200 OK\r\nContent-Length: "
    ++ (show_number size
        ++ (codes
              "\r\nContent-Type: application/octet-stream\r\nContent-Disposition: attachment; filename=\""
            ++ (header_safe_filename name ++ codes "\"\r\n")))

unfoldable pub reply_text : Reply → Bytes
unfolding plain_text file_headers
reply_text (plain status kind extra body) = plain_text status kind extra body
reply_text (attachment size name reads) =
    file_headers size name ++ (codes "Connection: close\r\n\r\n" ++ flatten reads)
reply_text (attachment_head size name) =
    file_headers size name ++ codes "Connection: close\r\nAccess-Control-Allow-Origin: *\r\n\r\n"
