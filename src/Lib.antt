-- ===== src/Lib.antt =====
-- The web client of the novel platform (apps/web/src), a React application in TypeScript over the
-- server's HTTP API. The verified part is the logic of its modules and pages: what they keep as
-- state, what their handlers do to it, and what they send.
--
-- The parts, and the files that model them:
--
-- Api: the module apps/web/src/api/client.ts. Api/Types has the answers and errors that it reads,
--   Api/Client its variables and the shared refresh (`refreshAccessToken`, `apiError`, `canRefresh`),
--   Api/Client/Tasks the transports `request`, `requestBlob` and `uploadImport` as an event machine
--   over any number of calls, Api/Endpoints the methods of the object `api`. The children of
--   Api/Client/Tasks are proofs about one arrival (Moves), calls that wait and end (Live, Progress,
--   Finish), what is sent (Budget), and when a refresh starts and a session ends (Refresh, Expiry).
-- Auth: apps/web/src/auth/AuthProvider.tsx as Auth/Provider (the state and its `useCallback`s, over
--   the answers to its requests) and Auth/ClientInstance (`clientInstanceId`,
--   `randomClientInstanceId`, `UUID_PATTERN`); apps/web/src/auth/ProtectedRoute.tsx and the table of
--   apps/web/src/App.tsx as Auth/Routes; apps/web/src/auth/webauthn.ts as Auth/Webauthn, with the
--   texts of base64url and, in Passkeys, the two calls of the authenticator; the links of
--   apps/web/src/layouts/AppShell.tsx as Auth/Shell, and apps/web/src/pages/LoginPage.tsx as
--   Auth/Login. The provider's `view` is what the guard reads. Auth/Joint runs the provider together
--   with the client of Api, whose token and failure handler (`clearAuth`) it shares; its children are
--   proofs about one event (Signed), one arrival for a call (Held) or for the refresh (Refreshing,
--   Sound), and all of them (Refines).
-- Reader: apps/web/src/pages/ReaderPage.tsx. Reader/State has its state, Reader/Position
--   `initialSectionIndex` and `handleScroll`, Reader/Saving `persist` with its promise chain as a
--   queue, Reader/Navigation the other handlers. A handler that awaits `persist` leaves what
--   follows in its save (`After`), which runs when the save has settled. Reader/Display has the two
--   effects that fetch the section and move the scroller; there the objects `opened` and `section`
--   are numbered, since an effect runs again when an object that it depends on is another. Its
--   children are proofs about one rendering (Commit), where the scroller stands (Restoring), the
--   ages of the objects (Events) and the section that is awaited (Current, Kept, Requests).
--   Reader/Settings is `changeSettings` with its timer, Reader/Chrome the bars that hide by a
--   timer. Reader/Server is the other end of a save, `save_progress` of
--   apps/server/src/novel_platform/application/reader/service.py, so that the page and the row that
--   it writes can be run together; there the edition stays the same, and its children are proofs
--   about the versions of saves (Sync), conflicts (Conflicts) and answers that are lost (Lost).
-- Upload: apps/web/src/pages/UploadPage.tsx as Upload/Import (the form and its choosers) with
--   Inspecting (`inspect`, `deleteFailedImport`) and Committing (`commit`), and
--   apps/web/src/pages/SeriesUploadPage.tsx as Upload/Series. An asynchronous handler is split at its
--   `await`: one definition up to the request, and one for each way that it can be answered, so that
--   other handlers can run in between.
-- Admin: apps/web/src/pages/AdminReadersPage.tsx, the view of one reader (`ReaderDetail`) as
--   Admin/ReaderDetail, the list with its search and selection as Admin/ReaderList, and the creation
--   of a reader with the credential that is issued as Admin/Issuing;
--   apps/web/src/pages/AdminSecurityPage.tsx, which ends a recovery session, as Admin/Security;
--   apps/web/src/pages/AdminSitePage.tsx as Admin/Site.
-- Library: apps/web/src/pages/LibraryPage.tsx, the filters with the request that Api/Endpoints makes
--   of them, and the loads that may overlap.
-- Pages: what the pages have in common that load what they show and whose handlers send one request
--   and load again. `Page` is the record of a page's hooks, `Server` that of what the backend does,
--   and `World` is a page together with the server's store, the requests that wait and the answers
--   that are on their way, in any number. Laws are the laws that a page's hooks keep to; Fresh,
--   Current, InFlight and Idle are proofs, for every page that keeps to them, about what it shows
--   once nothing is awaited, Drain and Settling about how it gets there.
-- Catalogue: apps/web/src/pages/SeriesDetailPage.tsx as Catalogue/SeriesDetail,
--   apps/web/src/pages/SeriesPage.tsx as Catalogue/SeriesList and
--   apps/web/src/pages/BookDetailPage.tsx, but for its editions, as Catalogue/BookDetail, which
--   give the hooks of such pages, and apps/web/src/features/editions/EditionCreateForm.tsx as
--   Catalogue/EditionForm, with the labels of apps/web/src/shared/labels.ts.
-- Account: apps/web/src/pages/SessionsPage.tsx as Account/Sessions, a page of Pages too;
--   apps/web/src/pages/DevicesPage.tsx as Account/Devices, whose handlers may overlap; the one that
--   revokes the current device signs out through the provider of Auth.
-- Shared: apps/web/src/shared/ProtectedImage.tsx and its object URLs.
-- Common: lists and texts, the conditional, and Boolean tests on numbers.
--
-- Each value of the server, the browser or the network is an argument: an answer, an event, a list of
-- random bytes, the arithmetic of JavaScript numbers (`Arithmetic`) and its string functions
-- (`Strings`). Numbers that only count are natural numbers. An instant of time is a number of
-- seconds, and a zone has one offset. Where text is matched character by character it is a list of
-- codes.
--
-- No definition needs fuel but `follow` of Auth/Routes/Redirects, which follows redirects of the
-- guard and of the sign-in page: three steps are enough for every route, if an authenticated phase
-- has a user and only administrators recover. Lists, such as the queue of saves or the files of an upload,
-- have any length.
--
-- The two requests of one load of SeriesDetailPage and of BookDetailPage are taken as one that is
-- answered at one moment, so nothing is said here of what these pages show.
--
-- Not modelled: markup and styles, the remaining pages and parts of pages (the cards of editions, the
-- profile, the audit), the contents of payloads that the client passes on unread, the images of a
-- section, dates, the end-to-end scripts, and the server apart from `save_progress`. The server is
-- modelled for a row of progress that is there, since opening an edition creates it. The generated
-- types of packages/api-client are not modelled; records keep the members that the code reads.
mod Common
pub mod Api
pub mod Auth
pub mod Pages
pub mod Reader
pub mod Shared
pub mod Library
pub mod Catalogue
pub mod Account
pub mod Upload
pub mod Admin
