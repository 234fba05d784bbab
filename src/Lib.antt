-- ===== src/Lib.antt =====
-- The backend of Pawspective, a service for the adoption of animals from shelters.
--
-- The program is a userver service in C++. A request is checked by AuthChecker and answered by a
-- handler (both in src/handlers), which reads the body or the arguments, validates them and calls
-- a domain service or the services of tokens and sessions (src/services); a service checks rights
-- and rules and calls repositories (src/repositories), which send one SQL statement each; models
-- and transfer objects (src/models, src/dto) are copied into each other on the way; src/utils holds
-- the builder of SQL clauses, the password hash, the validator and the error responses. The
-- database schema is postgresql/schemas/postgres-db.sql.
--
-- Which file models what:
--   Base             numbers, lists, 64-bit ids as integers, equality of ids and of texts
--   Std              of the C++ library what the source uses: bytes of a text, find, substr,
--                    tolower, isspace, to_string and stoll
--   HttpErrors       the statuses and codes of error responses, and their bodies
--   Errors           the exceptions of src/services/include/services/exception.hpp, of the
--                    libraries and of the handlers, without their messages
--   Models           src/models and src/dto: enumerations with their texts, structs, conversions
--   Sql              src/utils/src/sql_builder.cpp: Escape is EscapeForLike, over bytes; Builder
--                    is BuildQueryClause, with the list of the appended pieces as the buffer;
--                    Reading is how PostgreSQL reads these pieces
--   Db               the tables and, in Cascade, the foreign keys' actions and the trigger of the
--                    schema; Consistent says that every foreign key is met
--   Exec             a call: from a state to a result or an exception and the state after it
--   Repositories     src/repositories/src, one file per repository, one function per method;
--                    Search/Select runs the two clauses of the search of animals
--   Services         src/services/src, one file per service, one function per method
--   Tokens           Jwt is src/services/src/jwt_service.cpp, Sessions is pg_session_service.cpp
--                    beside it; Libraries has the parameters JSON and cryptography
--   Http             Validator and ErrorResponse are src/utils/src/validator.cpp, exception.cpp
--                    and error_response.cpp; Forms reads and writes the bodies of requests, as
--                    src/dto/src does; Bodies holds their conditions; Auth, Users, Adoption,
--                    Animals, Organizations, Posts and Reviews are the handlers of
--                    src/handlers/src, each a function of the request and the user's id;
--                    Search is the reading of the filters of animal_list_handler.cpp
--   Adoption, Accounts, Content, Pagination     theorems on the services
--   Samples, Tests   a small database and small libraries, and the theorems at concrete inputs
-- A function has the name of the method it models, in lower case with underscores; a handler is
-- named after its class, and the part of a try block and its catch clauses have names of their
-- own. The methods of a repository or a service of breeds and of cities are together in a file
-- Catalogue.
--
-- How the state is modelled. A table is the list of its rows in insertion order, with the next
-- number of its sequence; a failed INSERT uses a number up, as in PostgreSQL. Every statement is
-- committed by itself, as the repositories send them, so what was written before an exception
-- stays. The rows of a query without ORDER BY come in the order of the table. Posts and reviews
-- are listed by created_at, which does not order rows of one time: their listings take as an
-- argument the order in which the query meets the rows. Statements run one after the other, and
-- a read from a replica sees every earlier write. That every foreign key is met is what
-- PostgreSQL enforces; theorems that need it take it as a hypothesis. Times are whole seconds;
-- NOW() and the clock of the server are one field of the state that no call changes, and a
-- theorem on a later time sets it. An std::unordered_map of rows is the list of these rows. A
-- text that the program takes apart byte by byte is a list of bytes, and a String stands for an
-- std::string with one character for each byte.
--
-- Parameters: Argon2 (a password verifies against each of its hashes, and no hash is empty); the
-- comparison of single bytes by ILIKE, and for the search of organizations the whole match; the
-- salts and blocks that the random generators draw; JSON (a member that is set is read back,
-- others stay, what is written is read again); base64 (decoding undoes encoding, no dot in the
-- output); HMAC (a signature verifies for the text it was made for) and SHA-256 (no law); the
-- match of a regular expression.
--
-- Every loop of the program runs over a list and is structural recursion; only the print of a number
-- takes fuel, one more than the number, which has fewer digits than that.
-- The 32-bit cast of some OFFSETs is written out modulo 2 ^ 32; numbers that are read from a text
-- are refused outside 64 bits, and outside 32 bits where the source reads an int.
--
-- Not modelled: the JSON of replies; the sessions in Redis; the upload of photos and the S3 client
-- (its deletions are recorded, its failures change nothing); the liveness probe and the wiring of
-- the components; AnimalFilterDTO as JSON; limits of columns on the length of a text; concurrency.
pub mod Base
pub mod Std
pub mod HttpErrors
pub mod Errors
pub mod Models
pub mod Sql
pub mod Db
pub mod Exec
pub mod Repositories
pub mod Services
pub mod Tokens
pub mod Http
pub mod Pagination
pub mod Accounts
pub mod Content
pub mod Adoption
pub mod Samples
pub mod Tests
