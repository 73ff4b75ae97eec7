-- ===== src/Lib.antt =====
-- AI-GCM: the TypeScript services of the platform, and what makes each of them correct.
--
-- The program has three services. The authentication service (services/auth-service) registers
-- organisations, checks passwords and keeps refresh sessions; the gateway (services/api-gateway)
-- admits a request by its bearer token and answers it from Postgres, from ClickHouse or by passing
-- it on to the key vault and the report service; the report service (services/report-service)
-- writes PDF and CSV reports and runs the monthly batch. They share no state but the database, and
-- the gateway verifies the tokens that the authentication service signs.
--
-- Asynchronous code is a tree of awaited calls (Effect: Prog, with throw, try/catch and
-- try/finally), run against an environment that may answer each call by any value or any error,
-- depending on all that has happened before (Effect/Run). A theorem that quantifies over the
-- environment therefore covers every failure of the database, the cache and the network. What a
-- handler does to the outside is read off the history of its calls, the latest first. Effect/Post
-- and Effect/Keeps have one rule for each way to build a program.
--
-- Js has JavaScript's values (bodies, rows, query strings) and the operators the code uses on
-- them, Js/Text the string methods, Js/ParseInt parseInt. Zod has validation schemas as data, and
-- the zod library as a parameter; Http the replies; Sql statements as pieces of text and numbered
-- placeholders, and the WHERE clauses that handlers build up.
--
-- Auth: Jwt is session/jwt.ts (signAccessToken is sign_access_token, and so on), Refresh is
-- session/refresh.ts, Email is providers/email.ts, Stubs is mfa/totp.ts and providers/google.ts,
-- Server the routes of index.ts. Gateway: Authenticate is middleware/authenticate.ts, Server the
-- hook of index.ts, and Alerts, Audit, Budgets, Keys, Reports and Usage are the files of routes/.
-- Report: Csv is renderer/csv.ts, Pdf is renderer/pdf.ts, Generate and Server are index.ts,
-- Schedule is scheduler/cron.ts. JavaScript's floating-point numbers and their formats are a
-- parameter of Pdf, and Generate takes a whole drawing as one call that may fail. The files under
-- a component's folder hold its theorems, and the Tests of each service apply them to concrete
-- requests. Calls has the calls that leave a service: Postgres, Redis, bcrypt, jose, uuid, fetch,
-- pdfkit, the file system; their answers are the environment's.
--
-- Sdk is packages/sdk-js/src/client.ts. Web is the browser application, apps/web/src: Store is
-- store/useAppStore.ts with components/layout/AuthGuard.tsx, Theme is
-- components/theme/ThemeProvider.tsx, Api is lib/api.ts, Signin and Registration are the forms of
-- app/(auth)/login/page.tsx and app/(auth)/signup/page.tsx, Signup the slug and the password
-- strength of the latter, AlertsPage and AuditPage the state of app/(dashboard)/alerts/page.tsx
-- and app/(dashboard)/audit/page.tsx. toLowerCase and String(v) are parameters there, and
-- String(v) and JSON.stringify in Sdk; what fast-csv makes of the rows of an export is a
-- parameter of its theorem.
--
-- Overview, KeysPage, CostPage, UsagePage, BudgetsPage and ReportsPage are the pages of the same
-- names under app/(dashboard)/, with their sample figures, and Sidebar is
-- components/layout/Sidebar.tsx. A percentage of a budget is compared by products, where the source
-- divides floating-point numbers.
--
-- The services meet in four places. Auth/Refresh/Refine is the contract of the refresh sessions, a
-- map from ids to owners and tokens, which session/refresh.ts implements over Redis and jose, and
-- Effect/Turns lets two requests take turns on one history;
-- Gateway/Tenancy puts the routes of the gateway together and says what it means that a call is
-- held to one organisation; Platform takes a token from the authentication service to the gateway,
-- and the form of the login through that service, the store and the client to the gateway;
-- Web/Store/Requests takes the state of the browser to the requests that it sends.
--
-- Bounds: the loop of the CSV export is unbounded in the source and runs on fuel here, one unit
-- for a round; the number of rows plus one is enough. Numbers are natural numbers, decimals are
-- kept as digits. Runs of white space inside SQL texts are written as one space. String positions
-- count code points; at a position that indexOf returned the two ways to count cut alike.
--
-- Not modelled: the markup, the charts, the settings page and the landing page of the browser
-- application, which keep no state or only that of an animation, the creation of a PDF document,
-- the events that end it and the pages that pdfkit adds to it, the Go and Python services, the SQL
-- schema, the rate limiter, CORS and logging, and how the servers start.
pub mod Base
pub mod Js
pub mod Effect
pub mod Zod
pub mod Http
pub mod Auth
pub mod Sql
pub mod Gateway
pub mod Report
pub mod Sdk
pub mod Web
pub mod Platform
