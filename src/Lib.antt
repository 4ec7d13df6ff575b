-- ===== src/Lib.antt =====
-- accelerboat: a cache of container image layers for the nodes of a cluster. Every node runs the same
-- program. It serves the registry API to the node's container runtime, elects a master among the
-- nodes, and asks the master where a layer can be had; the master looks it up in Redis, asks the nodes
-- that have it, and lets a node download it if none has.
--
-- Which file models which part (paths from the repository's root):
--   Selector   cmd/accelerboat/options/leaderselector/selector.go (CurrentMaster,
--              getServiceEndpoints, changeMaster) and pkg/utils/strings.go (StringASCII)
--   Store      pkg/store/redis.go: where the layers lie. The state is RedisStore, with the address of
--              the node, the server and localCache; the server is a parameter with the laws of HSET,
--              HDEL and HGETALL, and Store.Memory is one that fulfils them.
--   Layer      pkg/server/customapi/layer.go and check.go. Layer.Nodes: nodeDownloadTasks with
--              distributeNode, releaseNode and distributeDownloadLayer. Layer.Cached: the two refer
--              maps with checkLayerHasCached. Layer.Download: requestDownloadLayer and the files.
--              Layer.Info: GetLayerInfo, DownloadLayer and the two check handlers.
--   Recorder   pkg/recorder/recorder.go: the ring buffer and its followers (Record, Subscribe), List,
--              List with an event file, and the file writer (Recorder.Writer). Recorder.Follow.Race
--              has Record's send loop as a step relation.
--   Cleaner    pkg/cleaner/cleaner.go: runClean, the files it collects, and the times of last use that
--              it takes from the recorded events.
--   Options    cmd/accelerboat/options: types.go, the checks of parse.go (Options.Parse) and the lookup
--              of registry mappings of options.go (Options.Mappings).
--   Token      pkg/server/customapi/servicetoken.go: GetServiceToken with its cache, which is a
--              parameter with the laws of go-cache; Token.Tests has one that fulfils them.
--   Registry   pkg/utils/registry.go: the authenticate headers (ChangeAuthenticateHeader and what it
--              calls).
--   Proxy      pkg/server/registry/proxy.go: how a node serves a blob (handleGetBlob and what it
--              calls); the master, the other nodes and the original registry are parameters.
--   Proxy.Route the switch of proxy.go's ServeHTTP and the handlers of tokens and manifests;
--              Proxy.Events pkg/server/registry/recorder.go; Registry.Uri the tests of requests of
--              pkg/utils/registry.go.
--   Server     pkg/server/server.go: ServeHTTP, and the proxies that NewUpstreamProxy keeps.
--   Manifest   pkg/server/customapi/manifest.go: the two caches of manifests.
--   Torrent    pkg/bittorrent/torrent.go: handleGenerateTorrent, the loop of downloadTorrent,
--              handleDownloadTorrent; and CopyFile and IsSparseFile of pkg/utils/file.go.
--   Watcher    pkg/staticwatcher/watcher.go: the walks and the loop of Watch.
--   Scan       pkg/ociscan/scanner.go: the reports, GenerateLayer and the lists.
--   Lock       pkg/utils/lock/locallock.go, as steps of goroutines.
--   Api        pkg/server/customapi/sys_recorder.go: filters and texts of the recorded events.
--   Preload    cmd/cli/image_preload.go: the names and the watch of the preload jobs.
--   Kube       cmd/cli/kube/kube.go: how a pod is found by its name or node, and the worker nodes.
--   Http       pkg/utils/httputils/http.go: the tries of a request; and the calls of
--              pkg/server/customapi/requester/client.go.
--   Base       what they share: texts as lists of bytes, decimal numerals, maps, sorting, slices.
-- How they interact: Layer.Cached reads Store's locations (query_layers) and deletes from it;
-- Layer.Info composes the three others of Layer; distributeNode takes Selector's endpoints as a
-- parameter that reads the state of the world. Cleaner takes Recorder's events, and names files the
-- way Layer.Download does. Token tries the users that Options has found for a registry. Server
-- finds a proxy with Options.Mappings and gives the request to Proxy.Route, which gives a blob to
-- Proxy; Proxy.Events are events of Recorder that Cleaner counts as uses and Api shows. Watcher and
-- Scan save and delete locations of Store; Torrent and Scan write the files that Proxy serves.
--
-- Choices. A Go map is a list of entries. Go leaves the order of an iteration open, and a theorem
-- here holds for every list, so for every order. A handler's critical sections run one behind the
-- other, but in Recorder.Follow.Race and Lock, where calls of other goroutines come between. Errors
-- are `none`, or `false` for a handler that answers nothing else; log lines and metrics are left
-- out. The ticks of a download's progress goroutine, which shares its err, are a parameter
-- (Progress of Layer.Download). Times are seconds, and nanoseconds in Api. int64 differences of
-- stored times wrap around; sizes are integers. The loop of distributeDownloadLayer has its five
-- rounds as fuel, all that the code gives it; the three tries of handleGenerateTorrent and the ten
-- of a request are counted down in the same way, and the loop of wrapMessage has the length of the
-- message, which Api.Wrap proves enough; all other loops are structural. A loop that waits on
-- channels runs over the list of what it receives; in Lock goroutines take steps in any order.
--
-- Not modelled: files, networks, Kubernetes and BitTorrent themselves, which are parameters where
-- the modelled code calls them; the commands but the preload and the search of pods; the statistics
-- and metrics pages; start-up and shutdown; the progress logs. They are input, output and calls of
-- libraries.
mod Base
pub mod Selector
pub mod Store
pub mod Layer
pub mod Recorder
pub mod Cleaner
pub mod Options
pub mod Token
pub mod Registry
pub mod Proxy
pub mod Server
pub mod Manifest
pub mod Torrent
pub mod Watcher
pub mod Scan
pub mod Lock
pub mod Api
pub mod Preload
pub mod Http
pub mod Kube
