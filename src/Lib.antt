-- ===== src/Lib.antt =====
-- A verification library of go-containerregistry: names, content hashes, the registry server, the
-- client that uploads to it and authorizes itself, platforms, mutated and rebased images, caches,
-- layouts on disk, transport errors and retries. Each definition follows one function, type or
-- branch of the Go source, and the theorems state what makes the components correct.
--
-- Prelude: tests on native numbers, lists, texts as lists of bytes, splitting and cutting of texts,
-- results, and maps from texts as functions. It models no code of the repository but the calls of
-- `strings` that the source makes.
--
-- Name (pkg/name): `Name.Options` for makeOptions and the functional options, `Name.Check` for
-- checkElement, which counts runes, `Name.Registry` and `Name.Scheme` for NewRegistry and Scheme,
-- `Name.Repository`, `Name.Tag` and `Name.Digest` for NewRepository, NewTag and NewDigest, and
-- `Name.Reference` for ParseReference, which tries a tag before a digest. An error is a constructor
-- with the data of its message. The children Reparse, Strict, Accepts, Parts and Unambiguous hold
-- the proofs.
--
-- Hash (pkg/v1/hash.go): a hash is the text of its algorithm and of its hex digits.
--
-- Server (pkg/registry): `Server.Blobs` is the handler of blobs and uploads, `Server.Manifests` that
-- of manifests, `Server.Routes` sends a request to one of them. State is passed explicitly: a map
-- is a function from texts to options, a request takes the state to an outcome and the next state.
-- An outcome is a response, an error, or a panic (an index out of range, which the HTTP server
-- recovers from). A handler holds its lock from its first access to its last, so a request is one
-- step, and concurrent requests are a sequence of them. `Server.Paths` writes out path.Join, and
-- `Server.Blobs.scan_range` the Sscanf call.
--
-- Platform (pkg/v1/platform.go, pkg/v1/types, pkg/v1/match, pkg/v1/remote/index.go): equality,
-- matchers, and the choice of a child of an index by platform or digest. Slices are lists.
--
-- Partial (pkg/v1/config.go, manifest.go, layer.go, image.go, pkg/v1/partial/with.go):
-- `Partial.Objects` has the records of methods, each method being the result of its call, and
-- `Partial.With` the helpers over a manifest and a config file.
--
-- Mutate: `Mutate.Rebase` (pkg/v1/mutate/rebase.go) keeps the rebased image as its configuration and
-- the addendums appended to it. `Mutate.Images` (pkg/v1/mutate/image.go) is the image with addendums
-- that is computed when a method needs it: a method takes the image to its result and to the image
-- afterwards, and one that does not compute reads what an earlier method has set. `Mutate.Indexes`
-- (pkg/v1/mutate/index.go) is the same for indexes.
--
-- Cache (pkg/v1/cache/cache.go): `Cache.Images`, over any state of a cache with its two operations.
--
-- Layout (pkg/v1/layout/write.go, blob.go, index.go): `Layout.Files` has a disk as a map from the
-- paths below the layout to bytes, and which paths the operating system denies. The goroutines of
-- WriteImage run one after another.
--
-- Authn (pkg/authn): `Authn.Keychains`, the kinds of credentials, the default keychain over the
-- config file that docker/cli reads, and the composed keychain.
--
-- Transport (pkg/v1/remote/transport): `Transport.Errors` (error.go) says which responses are errors,
-- what an error prints, what is redacted, and which errors are temporary. The query of redactURL is a
-- list of the entries of url.Values, in any order, and what is left is the list that Encode writes,
-- without its escapes. `Transport.Addresses` has
-- canonicalAddress and matchesHost of bearer.go with what they use of the package net,
-- `Transport.Ping` (ping.go) the challenge of a registry and the scheme, `Transport.Bearer`
-- (basic.go, schemer.go, bearer.go) the headers and the refresh of a token, and `Transport.Handshake`
-- RoundTrip of bearer.go and NewWithContext of transport.go.
--
-- Remote (pkg/v1/remote/write.go): `Remote.Writer` has each request of the writer and uploadOne, as
-- chains of `Remote.Act`, calls that return an error or a value and act on a world. The world and the
-- client's Do are parameters. `Remote.Server` makes the registry of `Server` that network: a request
-- carries a path, the digest of its query and a body, and the answer is what `Server.Routes.v2`
-- returns. `Remote.Routed`, `Remote.Served` and `Remote.Exchanged` follow the requests of an upload
-- through the registry's routes. `Remote.Listing` (list.go, catalog.go) is the loop
-- over pages: `Remote.Listing.Links` is about the link to the next page, `Remote.Listing.Rounds` about
-- one round, and `Remote.Listing.Pages` about the loop.
--
-- Retry (pkg/internal/retry, pkg/v1/remote/transport/retry.go): the attempts act on an explicit
-- world, sleeps are kept as durations, and the random numbers are a sequence of draws.
--
-- The parts meet in the types: the server and the platforms use `Hash`, the index of the server
-- names its manifests by `hash_string`, rebasing compares layers by `hash_eq`, the
-- writer checks answers by `check_error`, retries by `retry` and talks to the server's `v2`, and a
-- mutated image describes its layers by `Partial.With.descriptor`.
--
-- Fuel: `Remote.Listing.list_loop` runs on a number of rounds, of which the theorem of
-- `Remote.Listing.Pages` needs one for each page; a registry that links its pages in a circle
-- keeps the program in the loop. `Retry.Wait.backoff_loop` runs on the number of steps, each round
-- takes at least one, and the theorem of `Retry.Fuel` shows that more fuel changes nothing;
-- `Server.Http.decimal` runs on the number plus one, which has no fewer digits. All else is
-- structural recursion.
--
-- Parameters: SHA-256, the encoding of config files and manifests as JSON, url.Parse and the
-- resolution of a reference against a URL, the token server, the challenges that authchallenge
-- parses, the decoding from JSON of an index manifest, an error body and a page of names, the
-- texts of HTTP statuses, the fetch of a child's manifest, and the arithmetic on float64. Numbers
-- are natural; lengths of contents stay below the bounds of Go's int.
--
-- Not modelled: JSON, HTTP itself, logging and the tar and gzip formats, which are libraries that
-- the source calls; locks and goroutines, whose calls run one after another; and, as they are
-- outside the parts above, the reading side of pkg/v1/remote, MultiWrite, indexes in
-- pkg/v1/layout, Extract, tarballs, the cache of files, pkg/crane, pkg/gcrane and cmd.
pub mod Prelude
pub mod Name
pub mod Hash
pub mod Server
pub mod Platform
pub mod Partial
pub mod Mutate
pub mod Cache
pub mod Layout
pub mod Retry
pub mod Authn
pub mod Transport
pub mod Remote
