-- ===== src/Lib.antt =====
-- Distroless: container images built from Debian and RPM packages, and the web services that
-- publish what is in them.
--
-- The parts of the program. Tools under bazel/ and oci/ turn packages into image layers: each RPM
-- is unpacked by rpm-extract, whose tar becomes a layer; which RPMs is in the lockfile that the pin
-- tool resolves, ca-bundle extracts the certificates that servers are trusted by, and elfneeds
-- checks that a finished image can load what it holds. toolversions writes the files that say
-- which binaries of a tool are downloaded. The web server under web/ renders what a registry
-- publishes: the mirror reads the signed statements that are attached to a build, and the directory
-- makes pages of the tags and builds of an image family, the components of a build, its
-- vulnerability scans, and their history over the moves of a tag, all ordered by the version order
-- of web/internal/directory/version.go. The registry proxy under oci/proxy forwards pulls to the
-- canonical registry.
--
-- The files, with the code that each models:
--   Prelude, Prelude/*: shared names, the signed integers with the wrap-around of a 64-bit `int`,
--     results with an error, list lemmas. No code of the repository.
--   Strings, Strings/*: the functions of Go's `strings`, `strconv` and `cmp` that the code calls,
--     on the bytes of a text.
--   Version, Version/*: web/internal/directory/version.go. `compare_version` is CompareVersion,
--     `compare_fragment` is compareFragment. Its indices into a text are the rests of the text;
--     its inner loops are `compare_runs`, `skip_zeros` and `compare_digits`, and `compare_loop` is
--     the outer loop on fuel. The fuel is one more than the length of the two texts: every round
--     that does not return reads at least a byte, so the loop's unbounded equation holds.
--   Proxy/Paths: oci/proxy/proxy.go, what a request path asks for (findOp, ExtractRepo, IsBlob,
--     isTagsList), where it is sent (RewritePath), and cacheControl. The loop of findOp is
--     `find_below`, an index of -1 is none.
--   Proxy/Http, Proxy/Serve: the rest of oci/proxy/proxy.go. A handler takes the response writer
--     and the state (the transport cache and the network) and returns them, or none where it
--     panics. The registry client, the LRU cache and the JSON codec are the record `Upstream`.
--   Extract/Paths: bazel/modules/rules_rpm/rpm/tools/rpm-extract/main.go, the functions
--     shouldStrip, mergedUsr and mergedUsrLink on paths.
--   Extract/Payload: the same file's writePayloadAsTar and what it calls. The cpio stream is a
--     list of entries with their bytes; the maps of pending links are association lists with one
--     entry for a key. The cpio reader (a third-party package) and archive/tar's encoding enter as
--     flags of an entry and as the argument `accepts`.
--   Pin, Pin/*: bazel/modules/rules_rpm/rpm/tools/pin/main.go. Pin/Evr has formatEVR, splitEVR and
--     compareEVR; Pin/Text has splitCSV, stripLabelPrefix and skipRequire; Pin/Provider pickProvider;
--     Pin/Closure the index of what is provided and closeDeps; Pin/Fetch httpGet; Pin/Lock the
--     packages of the lockfile and validate; Pin/Resolve resolve. The walk's fuel is the length of
--     the worklist and the number of all requirements: each round shortens the list, or visits a
--     package and adds at most what it requires. Go iterates over a map in any order; the model
--     takes the order of an association list, and what is chosen does not depend on it.
--   Tags/Order, Tags/Grouping: web/internal/directory/versions.go. `compare_tag` and
--     `compare_release` are compareTag and compareRelease, `new_versions` is NewVersions; its maps
--     by digest are association lists, and its stable sorts are insertions.
--   Copyright/Parse, Copyright/Spdx: oci/debian/copyright/copyright.go. `scan_lines` is the loop of
--     `fields` with the open key as its state.
--   Elf/Path: the functions of Go's `path` that the next files call.
--   Elf/Root, Elf/Needs, Elf/Check: oci/tools/elfneeds/main.go. An image maps the path below its root
--     to what `os.Lstat` finds there, so a link in the middle of a path is the file system's matter.
--     The source bounds its own recursion: `follow` has the 40 rounds of fileInRoot, `read_conf` the
--     nine depths of ldSoConfDirs.
--   Scans/Arch, Scans/Severity, Scans/Report: web/internal/directory/scan.go, with belongsTo,
--     architectures and resolveArch of web/internal/directory/sbom.go. `fold_findings` is the first
--     loop of NewReport with `rows` and `index` as its state, `tally_rows` the last one. A severity
--     is its number.
--   Scans/Table: NewTable and rankVersions of web/internal/directory/sbom.go; `set_ranks` is the loop
--     that writes the ranks into the rows.
--   Mirror/*: web/internal/mirror/mirror.go and history.go. Sbom, Record, Vex and Ledger project
--     documents; Attached reads the statements that are attached to a digest; Read, Client and
--     Listing are the methods of Client. The registry is the record `Registry`, which may differ from
--     request to request; the verifier and the decoders are the record `Codec`; a cache of a package
--     is the record `Lru`, whose laws `IsLru` leave open what is evicted.
--   CaBundle/Value, CaBundle/Object, CaBundle/Anchors, CaBundle/Tar:
--     bazel/modules/rules_rpm/rpm/tools/ca-bundle/main.go. `read_lines` is the loop of parseP11Kit
--     with the last object and the open PEM block as its state; `server_auth_by_key` and `anchors`
--     are the two loops of extractServerAnchors. encoding/asn1 and encoding/pem are the record
--     `Encodings`, time.Parse the record `Dates`.
--   History: NewHistory of web/internal/directory/history.go without the chart. History/Handler:
--     tagEras of web/internal/directory/page.go, which makes the eras of a tag from the moves of the
--     ledger; what it reads is the record `Source`.
--   Pages, Pages/Serve, Pages/Serve/Views: the rest of web/internal/directory/page.go, on the response
--     writer of Proxy/Http. A page is the data of its template, without the logo, the strip above
--     it, the links of a whole family and the URLs of the points; html/template, net/url,
--     crypto/sha256 and time are the record `Web`.
--   ToolVersions: bazel/toolversions/toolversions.go. A file is its assignments to names and its other
--     statements; `write_versions` is Write, up to the file that is formatted. Sorting is insertion.
--
-- Not modelled: reading and verifying RPM files (file I/O and calls of packages), CacheLen of the
-- proxy (the size of a cache that is a parameter), the loggers, the flags and files of the
-- commands, the routing table, the front page, the static files and the templates of the web server,
-- and the other tools.
pub mod Prelude
pub mod Strings
pub mod Version
pub mod Extract
pub mod Proxy
pub mod Pin
pub mod Tags
pub mod Copyright
pub mod Elf
pub mod Scans
pub mod Mirror
pub mod CaBundle
pub mod Pages
pub mod History
pub mod ToolVersions
