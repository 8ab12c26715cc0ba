-- ===== src/FileTransfer/Listing.antt =====
-- `appendPropEntry`, `propfindXml` and `listFilesJson` of src/CrossPointWebServer.cpp, from the answer
-- of storage to the opening of the path.
use crosspoint_simulator.Prelude.{
  ℕ, ◌-◌, Bool, true, false, not, ◌&&◌, List, [], ◌∷◌, ◌++◌, map, Option, none, some, leb, ltb,
  ◌==◌, if◌then◌else◌, length, drop, Bytes, codes, bytes_eq, lower,
}
use crosspoint_simulator.Http.Response.{show_number}
use crosspoint_simulator.FileTransfer.Escape.{json_escape, xml_escape}
use crosspoint_simulator.FileTransfer.Path.{root, slash, is_protected_name, join_path}
use crosspoint_simulator.FileTransfer.Storage.{Entry, Opened}

abbrev ends_in_slash : Bytes → Bool
ends_in_slash [] = false
ends_in_slash (c ∷ []) = c == slash
ends_in_slash (c ∷ d ∷ cs) = ends_in_slash (d ∷ cs)

abbrev root_if_empty : Bytes → Bytes
root_if_empty [] = root
root_if_empty (c ∷ cs) = c ∷ cs

abbrev href_of : Bytes → Bool → Bytes
href_of path directory =
    let href = root_if_empty path in
    if directory && not (ends_in_slash href) then href ++ root else href

unfoldable pub prop_entry : Bytes → Bool → ℕ → Bytes
unfolding xml_escape
prop_entry path directory size =
    codes "<D:response><D:href>"
    ++ (xml_escape (href_of path directory)
        ++ (codes "</D:href><D:propstat><D:prop><D:resourcetype>"
            ++ ((if directory then codes "<D:collection/>" else [])
                ++ (codes "</D:resourcetype><D:getcontentlength>"
                    ++ (show_number (if directory then 0 else size)
                        ++ codes
                            "</D:getcontentlength><D:getlastmodified>Thu, 01 Jan 2024 00:00:00 GMT</D:getlastmodified></D:prop><D:status>HTTP/1.1 200 OK</D:status></D:propstat></D:response>")))))

-- The loop over the files of a folder, without the protected ones.
unfoldable pub visible : List Entry → List Entry
unfolding is_protected_name
visible [] = []
visible (e ∷ es) = let rest = visible es in if is_protected_name e.name then rest else e ∷ rest

unfoldable pub prop_entries : Bytes → List Entry → Bytes
unfolding prop_entry join_path
prop_entries path [] = []
prop_entries path (e ∷ es) =
    prop_entry (join_path path e.name) e.directory e.size ++ prop_entries path es

abbrev prop_root : Bytes → ℕ → Option Opened → Bytes
prop_root path depth none = []
prop_root path depth (some o) =
    prop_entry path o.directory o.size
    ++ (if o.directory && ltb 0 depth then prop_entries path (visible o.entries) else [])

unfoldable pub propfind_xml : Bytes → ℕ → Option Opened → Bytes
unfolding prop_entries visible
propfind_xml path depth found =
    codes "<?xml version=\"1.0\" encoding=\"utf-8\"?><D:multistatus xmlns:D=\"DAV:\">"
    ++ (prop_root path depth found ++ codes "</D:multistatus>")

unfoldable pub is_epub : Bytes → Bool
is_epub name =
    leb 5 (length name) && bytes_eq (map lower (drop (length name - 5) name)) (codes ".epub")

abbrev pub flag_text : Bool → Bytes
flag_text b = if b then codes "true" else codes "false"

unfoldable pub json_entry : Entry → Bytes
unfolding json_escape is_epub
json_entry e =
    codes "{\"name\":\""
    ++ (json_escape e.name
        ++ (codes "\",\"size\":"
            ++ (show_number (if e.directory then 0 else e.size)
                ++ (codes ",\"isDirectory\":"
                    ++ (flag_text e.directory
                        ++ (codes ",\"isEpub\":" ++ (flag_text (is_epub e.name) ++ codes "}")))))))

-- A comma goes in front of each file but the first.
unfoldable pub json_entries : Bool → List Entry → Bytes
unfolding json_entry
json_entries first [] = []
json_entries first (e ∷ es) =
    (if first then [] else codes ",") ++ (json_entry e ++ json_entries false es)

abbrev pub entries_of : Option Opened → List Entry
entries_of none = []
entries_of (some o) = if o.directory then o.entries else []

unfoldable pub list_files_json : Option Opened → Bytes
unfolding json_entries visible
list_files_json found = codes "[" ++ (json_entries true (visible (entries_of found)) ++ codes "]")
