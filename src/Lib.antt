-- ===== src/Lib.antt =====
-- The release programs of message-pusher, .forgejo/scripts: they build the image variants of a
-- version, stage them, and publish them to their final tags.
--
-- The programs share one state file and the registries. resolve.mjs reads the environment with the
-- functions of config.mjs and writes the state; meta.mjs adds one build per variant, with its tags;
-- build-push.mjs (the build job) builds every variant and pushes it to a staging tag; publish.mjs
-- (the publish job) looks every staging tag up and then gives the final tags. In the model the state
-- file is a value of type State, and the registries are the world of the docker command.
--
-- Files, and what they model:
--   Base, Text, Result   lists, Boolean tests, JavaScript strings as lists of code units, exceptions
--                        as values (Error, Result)
--   Config               .forgejo/scripts/config.mjs: Lists (splitList, parseKeyValues,
--                        parsePlatforms and the like), Variants (parseVariants, variantSelection),
--                        Tags (sanitizeTagName, stagingTagName), Images (normalizeImageBase,
--                        registriesFrom, imagesFrom, buildOptionsFrom)
--   Runtime              what meta.mjs takes from the JavaScript runtime, as a parameter
--   State, Staging       the state file, and stagingRefsFor of config.mjs
--   Io, Machine, Paths   code that changes the world outside and may throw; processes, files and the
--                        clock, and node:path, as parameters
--   Endpoints            .forgejo/scripts/endpoints.mjs: mirrors and proxies, probeDocker
--   Resolve              .forgejo/scripts/resolve.mjs: resolveRelease, dispatchInput,
--                        classifyEndpoints, withDefaultBuildArgs
--   Matrix               .forgejo/scripts/matrix.mjs: planMatrix
--   Login                .forgejo/scripts/login.mjs, with a process runner that reads a standard input
--   Meta                 .forgejo/scripts/meta.mjs: Expressions (findExpressions, renderExpression),
--                        Rules (parseTagRules, parseFlavor), RuleTag (ruleTagName), Generate
--                        (generateTags), Plan (variantTagNames, planBuilds, findDuplicateTags,
--                        computeBuilds)
--   Docker               runDocker and refExists of .forgejo/scripts/build-push.mjs
--   BuildPush            .forgejo/scripts/build-push.mjs: the command lines, the loop, main
--   Publish              .forgejo/scripts/publish.mjs: the plan, the check, the promotions, main
--   Prepare              .forgejo/scripts/prepare.mjs: Arch (architectures and platforms), Daemon
--                        (ensureDaemon), Packages (package managers, ensureBuildx), Sources
--                        (configurePackageSources), Binfmt (ensureBinfmt), Steps (prepare)
--   Preflight            .forgejo/scripts/preflight.mjs
--   Locate               .forgejo/scripts/locate-action.mjs: Search (findForgejoDirs), Candidates
--                        (locateCandidates, locateActionDir)
--   Run                  .forgejo/scripts/run.mjs: dispatch, verifyAction
--   Summary              .forgejo/scripts/summary.mjs
--   Pipeline             the build job followed by the publish job; Checked (preflight.mjs, meta.mjs,
--                        build-push.mjs and publish.mjs in a row)
--   Web                  web/src: Limit (the rate limiter of helpers/api.js), Token (generateToken of
--                        helpers/utils.js), Store (context/*/reducer.js, helpers/theme.js), Paging (the
--                        pages and the sorting that the tables of components/ share), Messages
--                        (components/MessagesTable.jsx), with Cancel, the table it implements, Stream
--                        and Refresh (its stream and its automatic refresh), Items (ChannelsTable.jsx,
--                        WebhooksTable.jsx and UsersTable.jsx), and the forms of pages/: Channel
--                        (EditChannel.jsx), Webhook (EditWebhook.jsx), Editor (EditMessage.jsx), and
--                        Settings (components/SystemSetting.jsx), Swipe (components/SwipeNav.jsx and
--                        constants/navigation.js)
--   Tests                the theorems at concrete inputs
--
-- State and effects. A program that calls docker passes a Session on: the world behind the docker
-- command and the calls made so far, in order. Its result is an exit code, what the state file holds
-- as results (none if the program left them alone), and the session. An exception is an Error; the
-- functions that can throw return a Result. A JavaScript Map is an association list in insertion
-- order. Texts are lists of UTF-16 code units on the native natural numbers.
--
-- Parameters and hypotheses. The docker command is the record Docker: any function on any type of
-- worlds. RegistryLaws and PushLaws (Publish.Registry, BuildPush.Staged) state what the code relies on:
-- `imagetools inspect` succeeds exactly for a ref that is there, a successful `imagetools create` or
-- `build --push` leaves its tags there, and no command takes a ref away. CreateSucceeds says that
-- `imagetools create` succeeds if its source is there. Tests.Toy gives a docker command that meets
-- them all. The environment is a function from names to optional texts.
--
-- The programs that prepare, check and locate run on a Machine (spawnSync, existsSync, process.arch,
-- the start of dockerd, and the clock, on any type of worlds) or on a FileSystem. ClockLaws says that
-- a wait is not shorter than it was asked for, and that running a process does not set the clock back.
-- The arithmetic on DOCKER_DIND_WAIT is a parameter: it gives a number of milliseconds, or a wait
-- without an end where the variable is Infinity. Tests.Prepare gives a machine that meets the laws.
--
-- The web client is a state and events: what the user does, a message from the stream, a timer, or the
-- answer to any of the requests that wait, in any order. A handler that awaits an answer is cut there.
-- A request that failed is answered without success, as the interceptor of helpers/api.js has it. In
-- Web.Items the objects and arrays that handlers keep and change have addresses. `JSON.parse` and
-- `localeCompare` are parameters. The number of a stream's failures is the index of the relation
-- Reached of Web.Stream.Backoff, where only a source that is open fails.
--
-- Bounds. The loops are structural, or run on fuel that is the length of the text they consume
-- (tokens and render in Meta.Expressions): every step consumes at least one unit. The loop that
-- waits for dockerd is counted in rounds, one for each millisecond until its deadline and one more; a
-- round that goes on waits two seconds. Of a wait without an end it does any number of rounds that is
-- given. The search for directories is counted in its depth, which the code bounds
-- as well.
--
-- Not modelled: the messages printed for people; reading and parsing the state file and
-- /etc/os-release; the exit codes of the programs that run.mjs starts; the diagnostic listing of
-- locate-action.mjs; in web/src, the rendering, the pages and components that are not named above, and the
-- helpers but for the rate limiter, tokens and the theme mode; the Go server.
pub mod Base
pub mod Text
pub mod Result
pub mod Io
pub mod Machine
pub mod Paths
pub mod Config
pub mod Runtime
pub mod Endpoints
pub mod State
pub mod Resolve
pub mod Matrix
pub mod Meta
pub mod Docker
pub mod Staging
pub mod Publish
pub mod BuildPush
pub mod Prepare
pub mod Preflight
pub mod Locate
pub mod Run
pub mod Summary
pub mod Login
pub mod Pipeline
pub mod Web
mod Tests
