-- ===== src/Tests/Requests.antt =====
-- A server that answers every request for symbols with one tree.
use portolan.Prelude.{[], Bytes, codes, equal, ◌≡◌}
use portolan.Context.{ok, background, check, poll, return}
use portolan.Text.Segments.{clean_rooted, slashed}
use portolan.Pathnorm.{canonicalize, is_unc_path, split_mount_drive}
use portolan.Pathnorm.Canonical.{IsCanonical}
use portolan.Pathnorm.Uri.{file_url, path_to_uri}
use portolan.Lsp.Conversion.{LspNodes}
use portolan.Lsp.Conversion.Symbols.{core_nodes, decode_document_symbols_ok}
use portolan.Lsp.Requests.{
  in_context, Reply, Replied, decoded, many, Server, decode_reply, prepare_open, document_symbols,
  Outlined, Opened, document_symbols-Outlined,
}
use portolan.Tests.Conversion.{wire_tree, wire_tree-AllSound}
use portolan.Tests.Provider.{host, urls}

abbrev pub server : Server
server = record {
  ensure_open = λ file. return tt;
  call_locations = λ request. return (many []);
  call_symbols = λ request. return (decoded wire_tree);
}

abbrev pub file : Bytes
file = codes "/p/a.ts"

document_symbols-file :
    document_symbols host urls server file background ≡ ok (core_nodes file wire_tree, background)
unfolding document_symbols prepare_open in_context canonicalize is_unc_path split_mount_drive
    clean_rooted slashed path_to_uri file_url equal check poll decode_reply
document_symbols-file = decode_document_symbols_ok file wire_tree wire_tree-AllSound

document_symbols-Outlined_example :
    (path : Bytes) × ((uri : Bytes) × ((reply : Reply LspNodes) × (Opened host urls server file path
            uri
          × (IsCanonical path
              × (Replied host urls server uri reply
                  × Outlined path reply (core_nodes file wire_tree))))))
document_symbols-Outlined_example =
    document_symbols-Outlined host urls server file background document_symbols-file
